-- ===== src/Idempotency/Locks.antt =====
-- The locks of keys.
use native.Mathlib.Omega.{arith}
use microservices_base.Prelude.{
  ◌≡◌, ◌≢◌, refl, true, false, List, [], ◌∷◌, String, inl, inr, Bool-cases,
}
use microservices_base.Prelude.Eq.{comparable_string, ==_refl, ==_of_ne}
use microservices_base.Prelude.Assoc.{insert, lookup-insert, lookup-remove}
use microservices_base.Prelude.Order.{All, all_nil, all_cons}
use microservices_base.Idempotency.{
  MemoryStore, Call, setting, deleting, locking, unlocking, cleaning, serve, serve_all, set, delete,
  lock, unlock, cleanup, is_locked,
}

-- The call does not unlock the key.
abbrev pub Holds : String → Call → Type 0
Holds key (unlocking other) = other ≢ key
Holds key _ = Unit

is_locked-insert :
    (key other : String) (s : MemoryStore)
    → is_locked key s ≡ true
    → is_locked key (record s { locks = insert other true s.locks }) ≡ true
is_locked-insert key other s h = ground (arith, lookup-insert other key true s.locks)

serve-is_locked :
    (key : String) (c : Call) (s : MemoryStore)
    → Holds key c
    → is_locked key s ≡ true
    → is_locked key (serve c s) ≡ true
unfolding serve set delete lock unlock cleanup
serve-is_locked key (setting now entry) s n h = h
serve-is_locked key (deleting other) s n h = h
serve-is_locked key (locking other) s n h = elim (Bool-cases (is_locked other s)) [
  | inl held ↦ rw (serve, lock, held) h
  | inr free ↦ rw (serve, lock, free) (is_locked-insert key other s h)
]
serve-is_locked key (unlocking other) s n h =
    ground (arith, lookup-remove other key s.locks, ==_of_ne other key n)
serve-is_locked key (cleaning now) s n h = h

serve_all-is_locked :
    (key : String) (calls : List Call) (s : MemoryStore)
    → All (Holds key) calls
    → is_locked key s ≡ true
    → is_locked key (serve_all calls s) ≡ true
serve_all-is_locked key [] s all_nil h = h
serve_all-is_locked key (c ∷ calls) s (all_cons n ns) h =
    serve_all-is_locked key calls (serve c s) ns (serve-is_locked key c s n h)

lock-is_locked : (key : String) (s : MemoryStore) → is_locked key (lock key s).0 ≡ true
unfolding lock
lock-is_locked key s = ground (arith, lookup-insert key key true s.locks, ==_refl key)

-- After a Lock of a key, granted or not, every other Lock of it is refused until the key is unlocked,
-- whatever calls come between.
pub lock_excludes :
    (key : String) (calls : List Call) (s : MemoryStore)
    → All (Holds key) calls
    → (lock key (serve_all calls (lock key s).0)).1 ≡ false
unfolding lock
lock_excludes key calls s holds =
    rw (lock, serve_all-is_locked key calls (lock key s).0 holds (lock-is_locked key s)) refl
