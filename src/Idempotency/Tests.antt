-- ===== src/Idempotency/Tests.antt =====
-- Runs of store.go.
use native.Mathlib.Omega.{arith}
use microservices_base.Prelude.{◌≡◌, refl, false, none, some, [], ◌∷◌, String}
use microservices_base.Prelude.Eq.{comparable_string, ne_of_==}
use microservices_base.Prelude.Assoc.{lookup, insert}
use microservices_base.Prelude.Order.{all_nil, all_cons}
use microservices_base.Prelude.Int.{pos}
use microservices_base.Idempotency.{
  Entry, MemoryStore, setting, deleting, locking, unlocking, cleaning, serve, serve_all, set, lock,
  cleanup, sweep, get, stamped, new_memory_store,
}
use microservices_base.Idempotency.Locks.{lock_excludes}
use microservices_base.Idempotency.Kept.{get-set}

abbrev answer : String → Entry
answer key = record {
  key = key;
  response = "done";
  status_code = pos 200;
  created_at = pos 0;
  expires_at = none;
}

abbrev served : MemoryStore
served = serve_all (locking "a" ∷ setting (pos 3) (answer "a") ∷ []) (new_memory_store (pos 10))

cleanup_run : (cleanup (pos 14) served).1 ≡ 1
unfolding cleanup sweep serve set lock new_memory_store stamped insert lookup
cleanup_run = refl

lock_excludes_example :
    (lock "a" (serve_all (unlocking "b" ∷ cleaning (pos 9) ∷ []) (lock "a" served).0)).1 ≡ false
lock_excludes_example =
    lock_excludes "a" (unlocking "b" ∷ cleaning (pos 9) ∷ []) served
      (all_cons (ne_of_== "b" "a" refl) (all_cons tt all_nil))

get-set_example :
    get
      (pos 13)
      "b"
      (serve_all (deleting "a" ∷ cleaning (pos 9) ∷ []) (set (pos 3) (answer "b") served))
    ≡ some (record {
      key = "b";
      response = "done";
      status_code = pos 200;
      created_at = pos 3;
      expires_at = some (pos 13);
    })
get-set_example =
    get-set (pos 10) (locking "a" ∷ setting (pos 3) (answer "a") ∷ [])
      (deleting "a" ∷ cleaning (pos 9) ∷ []) (pos 3) (pos 13) (answer "b")
      (all_cons (ne_of_== "a" "b" refl) (all_cons (omega arith) all_nil))
