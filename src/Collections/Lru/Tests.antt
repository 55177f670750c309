-- ===== src/Collections/Lru/Tests.antt =====
-- Runs of the LRU cache on concrete inputs.
use microservices_base.Prelude.{ℕ, ◌≡◌, refl, none, some, List, [], ◌∷◌, String}
use microservices_base.Prelude.Int.{pos}
use microservices_base.Prelude.Eq.{comparable_string}
use microservices_base.Collections.Lru.{LruCache, new_lru}
use microservices_base.Collections.Lru.Recency.{entry_of}
use microservices_base.Collections.Lru.Order.{drop_key}
use microservices_base.Collections.Lru.Cleanup.{alive}
use microservices_base.Collections.Lru.Refine.{
  Call, get_call, put_call, size_call, cleanup_call, value, count, done, serve, serve_list,
  serve-new_lru,
}

abbrev empty_pair : LruCache String ℕ
empty_pair = new_lru (pos 2)

abbrev calls : List (Call String ℕ)
calls =
    put_call (pos 0) "a" 1 (pos 10)
    ∷ put_call (pos 1) "b" 2 (pos 0)
    ∷ get_call (pos 2) "a"
    ∷ put_call (pos 3) "c" 3 (pos 0)
    ∷ get_call (pos 4) "b"
    ∷ cleanup_call (pos 11)
    ∷ get_call (pos 12) "c"
    ∷ size_call
    ∷ []

-- The third key evicts the least recent one, and the first expires.
calls_meaning :
    serve_list calls (2, [])
    ≡ done ∷ done ∷ value (some 1) ∷ done ∷ value none ∷ count 1 ∷ value (some 3) ∷ count 1 ∷ []
unfolding serve_list entry_of drop_key alive
calls_meaning = refl

serve-new_lru_example : serve calls (new_lru (pos 2)) ≡ serve_list calls (2, [])
serve-new_lru_example = serve-new_lru (pos 2) calls
