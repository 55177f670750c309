-- ===== src/Idempotency/Kept.antt =====
-- What Get answers after a Set.
use native.Mathlib.Omega.{arith}
use microservices_base.Prelude.{
  ◌≡◌, ◌≢◌, refl, sym, subst, ap, ◌∙◌, true, Option, none, some, List, [], ◌∷◌, String, inl, inr,
  Bool-cases, if◌then◌else◌,
}
use microservices_base.Prelude.Eq.{comparable_string, ==_refl, eq-cases, ==_of_ne}
use microservices_base.Prelude.Assoc.{lookup, lookup-insert_self, lookup-insert_ne, lookup-remove}
use microservices_base.Prelude.Keys.{
  Absent, absent_nil, absent_cons, NoRepeat, none_listed, one_listed, lookup-Absent,
  NoRepeat-insert, NoRepeat-remove,
}
use microservices_base.Prelude.Order.{All, all_nil, all_cons}
use microservices_base.Prelude.Int.{◌+ℤ◌, ℤ, ◌≤ℤ◌, ltb_ℤ}
use microservices_base.Idempotency.{
  expiry, Entry, MemoryStore, Call, setting, deleting, locking, unlocking, cleaning, serve,
  serve_all, set, delete, lock, unlock, cleanup, sweep, get, unexpired, is_expired, is_locked,
  stamped, new_memory_store,
}

-- The call leaves the key's entry alone, and its clock has not passed the given one.
abbrev pub Spares : String → ℤ → Call → Type 0
Spares key now (setting at entry) = entry.key ≢ key
Spares key now (deleting other) = other ≢ key
Spares key now (locking other) = Unit
Spares key now (unlocking other) = Unit
Spares key now (cleaning at) = at ≤ℤ now

is_expired_later :
    (at now : ℤ) (x : Option ℤ) → at ≤ℤ now → is_expired at x ≡ true → is_expired now x ≡ true
is_expired_later at now none le h = refl
is_expired_later at now (some x) le h = ground arith

Absent-sweep :
    {key : String} (at : ℤ) {entries : List (String × Entry)}
    → Absent key entries
    → Absent key (sweep at entries).0
unfolding sweep
Absent-sweep at absent_nil = absent_nil
Absent-sweep at (absent_cons {v} n a) = elim (Bool-cases (is_expired at v.expires_at)) [
  | inl old ↦ rw (sweep, old) (Absent-sweep at a)
  | inr fresh ↦ rw (sweep, fresh) (absent_cons n (Absent-sweep at a))
]

NoRepeat-sweep :
    (at : ℤ) {entries : List (String × Entry)} → NoRepeat entries → NoRepeat (sweep at entries).0
unfolding sweep
NoRepeat-sweep at none_listed = none_listed
NoRepeat-sweep at (one_listed {v} a r) = elim (Bool-cases (is_expired at v.expires_at)) [
  | inl old ↦ rw (sweep, old) (NoRepeat-sweep at r)
  | inr fresh ↦ rw (sweep, fresh) (one_listed (Absent-sweep at a) (NoRepeat-sweep at r))
]

unexpired_old :
    (now : ℤ) (v : Entry) → is_expired now v.expires_at ≡ true → unexpired now (some v) ≡ none
unfolding unexpired
unexpired_old now v old = rw (unexpired, old) refl

-- A sweep takes only what is expired at that time, and so later.
sweep-unexpired :
    (key : String) (at now : ℤ) {entries : List (String × Entry)}
    → at ≤ℤ now
    → NoRepeat entries
    → unexpired now (lookup key (sweep at entries).0) ≡ unexpired now (lookup key entries)
unfolding sweep lookup unexpired
sweep-unexpired key at now le none_listed = refl
sweep-unexpired key at now le (one_listed {k} {v} {m} a r) =
    elim (Bool-cases (is_expired at v.expires_at)) [
      | inl old ↦ elim (eq-cases k key) [
        | inl same ↦
            rw (sweep, old, lookup, same, ==_refl key)
              (ap (unexpired now) (lookup-Absent (Absent-sweep at (subst (λ j. Absent j m) same a)))
                ∙ sym (unexpired_old now v (is_expired_later at now v.expires_at le old)))
        | inr other ↦
            rw (sweep, old, lookup, ==_of_ne k key other) (sweep-unexpired key at now le r)
      ]
      | inr fresh ↦ elim (eq-cases k key) [
        | inl same ↦ rw (sweep, fresh, lookup, same, ==_refl key) refl
        | inr other ↦
            rw (sweep, fresh, lookup, ==_of_ne k key other) (sweep-unexpired key at now le r)
      ]
    ]

serve-NoRepeat : (c : Call) (s : MemoryStore) → NoRepeat s.entries → NoRepeat (serve c s).entries
unfolding serve set delete lock unlock cleanup
serve-NoRepeat (setting now entry) s r = NoRepeat-insert entry.key (stamped now s entry) r
serve-NoRepeat (deleting key) s r = NoRepeat-remove key r
serve-NoRepeat (locking key) s r = elim (Bool-cases (is_locked key s)) [
  | inl held ↦ rw (serve, lock, held) r
  | inr free ↦ rw (serve, lock, free) r
]
serve-NoRepeat (unlocking key) s r = r
serve-NoRepeat (cleaning now) s r = NoRepeat-sweep now r

serve-get :
    (key : String) (now : ℤ) (c : Call) (s : MemoryStore)
    → NoRepeat s.entries
    → Spares key now c
    → get now key (serve c s) ≡ get now key s
unfolding serve set delete lock unlock cleanup get
serve-get key now (setting at entry) s r n =
    ap (unexpired now) (lookup-insert_ne entry.key key (stamped at s entry) s.entries n)
serve-get key now (deleting other) s r n =
    ap (unexpired now) (lookup-remove other key s.entries ∙ rw (==_of_ne other key n) refl)
serve-get key now (locking other) s r n = elim (Bool-cases (is_locked other s)) [
  | inl held ↦ rw (serve, lock, held) refl
  | inr free ↦ rw (serve, lock, free) refl
]
serve-get key now (unlocking other) s r n = refl
serve-get key now (cleaning at) s r n = sweep-unexpired key at now n r

serve_all-get :
    (key : String) (now : ℤ) (calls : List Call) (s : MemoryStore)
    → NoRepeat s.entries
    → All (Spares key now) calls
    → get now key (serve_all calls s) ≡ get now key s
serve_all-get key now [] s r all_nil = refl
serve_all-get key now (c ∷ calls) s r (all_cons n ns) =
    serve_all-get key now calls (serve c s) (serve-NoRepeat c s r) ns ∙ serve-get key now c s r n

serve_all-NoRepeat :
    (calls : List Call) (s : MemoryStore)
    → NoRepeat s.entries
    → NoRepeat (serve_all calls s).entries
serve_all-NoRepeat [] s r = r
serve_all-NoRepeat (c ∷ calls) s r = serve_all-NoRepeat calls (serve c s) (serve-NoRepeat c s r)

kept_set :
    (at : ℤ) (entry : Entry) (s : MemoryStore)
    → NoRepeat s.entries
    → NoRepeat (set at entry s).entries
unfolding set
kept_set at entry s r = NoRepeat-insert entry.key (stamped at s entry) r

found :
    (at now : ℤ) (entry : Entry) (s : MemoryStore)
    → get now entry.key (set at entry s) ≡ unexpired now (some (stamped at s entry))
unfolding get set
found at now entry s =
    ap (unexpired now) (lookup-insert_self entry.key (stamped at s entry) s.entries)

-- The time at which an entry that is set expires.
abbrev pub due : ℤ → ℤ → Option ℤ → ℤ
due at ttl none = at +ℤ ttl
due at ttl (some time) = time

serve-ttl : (c : Call) (s : MemoryStore) → (serve c s).ttl ≡ s.ttl
unfolding serve set delete lock unlock cleanup
serve-ttl (setting now entry) s = refl
serve-ttl (deleting key) s = refl
serve-ttl (locking key) s = elim (Bool-cases (is_locked key s)) [
  | inl held ↦ rw (serve, lock, held) refl
  | inr free ↦ rw (serve, lock, free) refl
]
serve-ttl (unlocking key) s = refl
serve-ttl (cleaning now) s = refl

serve_all-ttl : (calls : List Call) (s : MemoryStore) → (serve_all calls s).ttl ≡ s.ttl
serve_all-ttl [] s = refl
serve_all-ttl (c ∷ calls) s = serve_all-ttl calls (serve c s) ∙ serve-ttl c s

-- What Get returns at `now` of an entry that was set at `at`.
abbrev pub answer : ℤ → ℤ → ℤ → Entry → Option Entry
answer now at ttl entry =
    if ltb_ℤ (due at ttl entry.expires_at) now
    then none
    else some (record {
      key = entry.key;
      response = entry.response;
      status_code = entry.status_code;
      created_at = at;
      expires_at = some (due at ttl entry.expires_at);
    })

expiry-due : (at ttl : ℤ) (x : Option ℤ) → expiry at ttl x ≡ some (due at ttl x)
expiry-due at ttl none = refl
expiry-due at ttl (some time) = refl

unexpired-answer :
    (now at : ℤ) (entry : Entry) (s : MemoryStore)
    → unexpired now (some (stamped at s entry)) ≡ answer now at s.ttl entry
unfolding unexpired stamped
unexpired-answer now at entry s = rw (expiry-due at s.ttl entry.expires_at) refl

-- Whatever calls a new store has served, and after a Set at some time whatever calls that leave the
-- entry's key alone and whose clock has not passed `now`, Get at `now` returns the key, the response
-- and the status that were set, with the time of the Set and the expiry that was set, or where none
-- was the time of the Set and the store's TTL; unless that expiry is before `now`: then it returns
-- nothing.
pub get-set :
    (ttl : ℤ) (before after : List Call) (at now : ℤ) (entry : Entry)
    → All (Spares entry.key now) after
    → get now entry.key (serve_all after (set at entry (serve_all before (new_memory_store ttl))))
      ≡ answer now at ttl entry
unfolding new_memory_store
get-set ttl before after at now entry spares =
    let s = serve_all before (new_memory_store ttl) in
    let r = serve_all-NoRepeat before (new_memory_store ttl) none_listed in
    serve_all-get entry.key now after (set at entry s) (kept_set at entry s r) spares
    ∙ found at now entry s
    ∙ unexpired-answer now at entry s
    ∙ ap (λ t. answer now at t entry) (serve_all-ttl before (new_memory_store ttl))
