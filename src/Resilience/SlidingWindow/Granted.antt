-- ===== src/Resilience/SlidingWindow/Granted.antt =====
-- What a sliding window grants in a row of requests.
use microservices_base.Prelude.{
  ℕ, ◌≡◌, refl, sym, ap, subst, String, List, [], ◌∷◌, ◌++◌, if◌then◌else◌, Bool-cases, inl, inr,
}
use microservices_base.Prelude.Int.{ℤ, pos, ◌≤ℤ◌}
use microservices_base.Resilience.SlidingWindow.{
  SlidingWindow, SlidingWindowConfig, new_sliding_window, prune_old_requests, allow,
}
use microservices_base.Resilience.SlidingWindow.Spacing.{
  Spaced, Grants, prune-Grants, decide-Grants, append_assoc,
}

-- The times of the requests of a row that are allowed.
abbrev pub granted : List (ℤ × String) → SlidingWindow → List ℤ
granted [] sw = []
granted ((now, key) ∷ asks) sw =
    let (next, decision) = allow now key sw in
    let rest = granted asks next in if decision.allowed then now ∷ rest else rest

-- The clock does not go back.
abbrev pub InOrder : ℤ → List (ℤ × String) → Type 0
InOrder last [] = Unit
InOrder last ((now, key) ∷ asks) = (last ≤ℤ now) × InOrder now asks

allow-Grants :
    (limit : ℕ) (window last now : ℤ) (key : String) (g : List ℤ) (sw : SlidingWindow)
    → last ≤ℤ now
    → Grants limit window last g sw
    → Grants limit window now
        (if (allow now key sw).1.allowed then g ++ now ∷ [] else g)
        (allow now key sw).0
unfolding allow
allow-Grants limit window last now key g sw h v =
    decide-Grants limit window now key g (prune_old_requests now sw)
      (prune-Grants limit window last now g sw h v)

granted-Spaced :
    (limit : ℕ) (window last : ℤ) (asks : List (ℤ × String)) (g : List ℤ) (sw : SlidingWindow)
    → InOrder last asks
    → Grants limit window last g sw
    → Spaced limit window (g ++ granted asks sw)
granted-Spaced limit window last [] g sw time v =
    subst (Spaced limit window) (sym (append-nil g)) v.spaced
  where
    append-nil : (l : List ℤ) → l ++ [] ≡ l
    append-nil [] = refl
    append-nil (x ∷ l) = ap (◌∷◌ x) (append-nil l)
granted-Spaced limit window last ((now, key) ∷ asks) g sw time v =
    let next = allow-Grants limit window last now key g sw time.0 v in
    elim (Bool-cases ((allow now key sw).1.allowed)) [
      | inl good ↦
          let rest =
            granted-Spaced limit window now asks (g ++ now ∷ []) (allow now key sw).0 time.1
              (rw good at next) in
          rw good (
            subst (Spaced limit window)
              (sym (append_assoc g (now ∷ []) (granted asks (allow now key sw).0))) rest)
      | inr bad ↦
          rw bad
            (granted-Spaced limit window now asks g (allow now key sw).0 time.1 (rw bad at next))
    ]

-- Of the requests that a new sliding window allows in a row that comes in order of time, any
-- `limit + 1` in a row span at least the window: in no stretch shorter than the window are more
-- than `limit` allowed.
pub new_sliding_window-Spaced :
    (cfg : SlidingWindowConfig) (limit : ℕ) (start : ℤ) (asks : List (ℤ × String))
    → cfg.limit ≡ pos limit
    → InOrder start asks
    → Spaced limit cfg.window (granted asks (new_sliding_window cfg))
unfolding new_sliding_window Spaced
new_sliding_window-Spaced cfg limit start asks e time =
    granted-Spaced limit cfg.window start asks [] (new_sliding_window cfg) time (record {
      out = [];
      split = refl;
      before = tt;
      spaced = λ i a b ea eb. cc ea;
      limit_eq = e;
      window_eq = refl;
    })
