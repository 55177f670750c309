-- ===== src/Idempotency.antt =====
-- libs/go/src/idempotency/store.go: the store in memory. Every method holds the mutex and is one step;
-- an entry is a value, and an instant is a number of nanoseconds, or `none` for the zero time. Set
-- reads the clock once for its two times.
mod Locks
mod Kept
mod Tests
use native.Mathlib.Omega.{arith}
use microservices_base.Prelude.{
  ℕ, suc, ◌+◌, Bool, true, false, Option, none, some, List, [], ◌∷◌, String, if◌then◌else◌,
}
use microservices_base.Prelude.Eq.{comparable_string}
use microservices_base.Prelude.Assoc.{lookup, insert, remove}
use microservices_base.Prelude.Int.{ℤ, ◌+ℤ◌, ltb_ℤ}

pub record Entry : Type 0 where
  pub key : String
  pub response : String
  pub status_code : ℤ
  pub created_at : ℤ
  pub expires_at : Option ℤ

pub record MemoryStore : Type 0 where
  pub entries : List (String × Entry)
  pub locks : List (String × Bool)
  pub ttl : ℤ

unfoldable pub new_memory_store : ℤ → MemoryStore
new_memory_store ttl = record { entries = []; locks = []; ttl = ttl }

-- `now.After(entry.ExpiresAt)`: every instant is after the zero time.
abbrev pub is_expired : ℤ → Option ℤ → Bool
is_expired now none = true
is_expired now (some at) = ltb_ℤ at now

unfoldable pub unexpired : ℤ → Option Entry → Option Entry
unexpired now none = none
unexpired now (some entry) = if is_expired now entry.expires_at then none else some entry

unfoldable pub get : ℤ → String → MemoryStore → Option Entry
get now key s = unexpired now (lookup key s.entries)

abbrev pub expiry : ℤ → ℤ → Option ℤ → Option ℤ
expiry now ttl none = some (now +ℤ ttl)
expiry now ttl (some at) = some at

-- The entry that Set stores.
unfoldable pub stamped : ℤ → MemoryStore → Entry → Entry
stamped now s entry = record entry {
  expires_at = expiry now s.ttl entry.expires_at;
  created_at = now;
}

unfoldable pub set : ℤ → Entry → MemoryStore → MemoryStore
set now entry s = record s { entries = insert entry.key (stamped now s entry) s.entries }

unfoldable pub delete : String → MemoryStore → MemoryStore
delete key s = record s { entries = remove key s.entries }

-- A missing key reads as false.
abbrev pub is_locked : String → MemoryStore → Bool
is_locked key s = elim (lookup key s.locks) [ none ↦ false | some held ↦ held ]

unfoldable pub lock : String → MemoryStore → MemoryStore × Bool
lock key s =
    if is_locked key s then (s, false) else (record s { locks = insert key true s.locks }, true)

unfoldable pub unlock : String → MemoryStore → MemoryStore
unlock key s = record s { locks = remove key s.locks }

-- The loop of Cleanup: the entries that it leaves and the number of those that it deletes.
unfoldable pub sweep : ℤ → List (String × Entry) → List (String × Entry) × ℕ
sweep now [] = ([], 0)
sweep now ((key, entry) ∷ entries) =
    let (left, removed) = sweep now entries in
    if is_expired now entry.expires_at then (left, removed + 1) else ((key, entry) ∷ left, removed)

unfoldable pub cleanup : ℤ → MemoryStore → MemoryStore × ℕ
cleanup now s = let (left, removed) = sweep now s.entries in (record s { entries = left }, removed)

-- A call of a method other than Get.
pub data Call : Type 0 where
  setting : ℤ → Entry → Call
  deleting locking unlocking : String → Call
  cleaning : ℤ → Call

unfoldable pub serve : Call → MemoryStore → MemoryStore
serve (setting now entry) s = set now entry s
serve (deleting key) s = delete key s
serve (locking key) s = (lock key s).0
serve (unlocking key) s = unlock key s
serve (cleaning now) s = (cleanup now s).0

abbrev pub serve_all : List Call → MemoryStore → MemoryStore
serve_all [] s = s
serve_all (c ∷ calls) s = serve_all calls (serve c s)
