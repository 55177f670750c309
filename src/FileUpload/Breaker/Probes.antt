-- ===== src/FileUpload/Breaker/Probes.antt =====
-- How many calls the circuit breaker of file-upload admits before it hears of their results.
use Prim.Native.Nat.{min}
use microservices_base.Prelude.{
  ℕ, zero, suc, ◌+◌, ◌-◌, ◌≤◌, ◌<◌, ◌≡◌, ap, ◌∙◌, true, false, List, [], ◌∷◌, arith, length, ltb,
  if◌then◌else◌, Bool-cases, inl, inr,
}
use microservices_base.Prelude.Int.{ℤ, pos, ltb_ℤ}
use microservices_base.Prelude.Word.{half_word, sub_time, wrap64}
use microservices_base.FileUpload.Breaker.{
  Breaker, closed, open_state, half_open, allow, record_success,
}

-- The number of calls of a row of Allow that are admitted.
abbrev pub granted : List ℤ → Breaker → ℕ
granted [] cb = 0
granted (now ∷ times) cb =
    let (next, admitted) = allow now cb in (if admitted then 1 else 0) + granted times next

inc_pos : (f t : ℕ) → f < t → t < half_word → wrap64 (pos (f + 1)) ≡ pos (f + 1)
unfolding wrap64
inc_pos f t p q = ground arith

-- A counted probe.
record Counts (cb next : Breaker) (c m : ℕ) : Type 0 where
  state : next.state ≡ half_open
  calls : next.half_open_calls ≡ pos c
  max : next.half_open_max_calls ≡ pos m

allow-Counts :
    (now : ℤ) (cb : Breaker) (c m : ℕ)
    → Counts cb cb c m
    → m < half_word
    → c < m
    → ((allow now cb).1 ≡ true) × Counts cb (allow now cb).0 (c + 1) m
unfolding allow
allow-Counts now cb c m h w below = ground (arith, inc_pos c m below w)

allow-full : (now : ℤ) (cb : Breaker) (m : ℕ) → Counts cb cb m m → allow now cb ≡ (cb, false)
unfolding allow
allow-full now cb m h = ground arith

granted-half_open :
    (times : List ℤ) (cb : Breaker) (c m : ℕ)
    → cb.state ≡ half_open
    → cb.half_open_calls ≡ pos c
    → cb.half_open_max_calls ≡ pos m
    → m < half_word
    → c ≤ m
    → granted times cb ≡ min (length times) (m - c)
granted-half_open [] cb c m s n k w le = omega arith
granted-half_open (now ∷ times) cb c m s n k w le = elim (Bool-cases (ltb c m)) [
  | inl below ↦
      let h : c < m = ground arith in
      let (admitted, next) =
        allow-Counts now cb c m (record { state = s; calls = n; max = k }) w h in
      let ih =
        granted-half_open times (allow now cb).0 (c + 1) m next.state next.calls next.max w
          (omega arith) in
      rw admitted (omega arith)
  | inr full ↦
      let same : c ≡ m = ground arith in
      let counts : Counts cb cb m m = record { state = s; calls = n ∙ ap pos same; max = k } in
      let ih = granted-half_open times cb c m s n k w le in
      rw (allow-full now cb m counts) (omega arith)
]

opening :
    (now : ℤ) (cb : Breaker) (m : ℕ)
    → cb.state ≡ open_state
    → cb.half_open_max_calls ≡ pos m
    → ltb_ℤ cb.reset_timeout (sub_time now cb.last_failure) ≡ true
    → ((allow now cb).1 ≡ true) × Counts cb (allow now cb).0 0 m
unfolding allow
opening now cb m s k late = ground arith

-- An open breaker whose timeout has passed admits, of a row of calls whose results it is not told,
-- the first one and after it as many as HalfOpenMaxCalls.
pub granted-opening :
    (now : ℤ) (times : List ℤ) (cb : Breaker) (m : ℕ)
    → cb.state ≡ open_state
    → cb.half_open_max_calls ≡ pos m
    → m < half_word
    → ltb_ℤ cb.reset_timeout (sub_time now cb.last_failure) ≡ true
    → granted (now ∷ times) cb ≡ 1 + min (length times) m
granted-opening now times cb m s k w late =
    let (admitted, next) = opening now cb m s k late in
    let rest =
      granted-half_open times (allow now cb).0 0 m next.state next.calls next.max w (omega arith) in
    rw admitted (omega arith)

-- Successes recorded one after the other.
abbrev pub succeeding : ℕ → Breaker → Breaker
succeeding zero cb = cb
succeeding (suc n) cb = succeeding n (record_success cb)

record_success-closed : (cb : Breaker) → cb.state ≡ closed → (record_success cb).state ≡ closed
unfolding record_success
record_success-closed cb h = ground arith

succeeding-closed : (n : ℕ) (cb : Breaker) → cb.state ≡ closed → (succeeding n cb).state ≡ closed
succeeding-closed zero cb h = h
succeeding-closed (suc n) cb h =
    succeeding-closed n (record_success cb) (record_success-closed cb h)

record_success-half_open :
    (cb : Breaker) (s m : ℕ)
    → cb.state ≡ half_open
    → cb.successes ≡ pos s
    → cb.half_open_max_calls ≡ pos m
    → s < m
    → m < half_word
    → ((record_success cb).successes ≡ pos (if ltb (s + 1) m then s + 1 else 0))
      × ((record_success cb).half_open_max_calls ≡ pos m)
      × ((record_success cb).state ≡ (if ltb (s + 1) m then half_open else closed))
unfolding record_success
record_success-half_open cb s m h e k p q = ground (arith, inc_pos s m p q)

-- A half-open breaker with `s` successes is closed after a row of successes exactly when these
-- bring them to HalfOpenMaxCalls, and stays half-open otherwise.
pub succeeding-state :
    (n : ℕ) (cb : Breaker) (s m : ℕ)
    → cb.state ≡ half_open
    → cb.successes ≡ pos s
    → cb.half_open_max_calls ≡ pos m
    → s < m
    → m < half_word
    → (succeeding n cb).state ≡ (if ltb (s + n) m then half_open else closed)
succeeding-state zero cb s m h e k p q = ground arith
succeeding-state (suc n) cb s m h e k p q =
    let (counted, max, state) = record_success-half_open cb s m h e k p q in
    elim (Bool-cases (ltb (s + 1) m)) [
      | inl below ↦
          let ih =
            succeeding-state n (record_success cb) (s + 1) m (rw below at state)
              (rw below at counted) max (ground arith) q in
          ih ∙ ap (λ k. if ltb k m then half_open else closed) (omega arith)
      | inr reached ↦
          let done = succeeding-closed n (record_success cb) (rw reached at state) in ground arith
    ]
