-- ===== src/Collections/Stack/Order.antt =====
-- What Pop returns after Push.
use native.Mathlib.Omega.{arith}
use microservices_base.Prelude.{
  ◌≡◌, refl, ap, ap₂, ◌∙◌, ◌+◌, ◌-◌, false, ◌==◌, some, List, [], ◌∷◌, ◌++◌, length, length-append,
  get_elem?, take,
}
use microservices_base.Collections.Stack.{Stack, push, pop}

module _ {ℓ} {T : Type ℓ} where
  take-snoc : (l : List T) (x : T) → take (length l) (l ++ x ∷ []) ≡ l
  take-snoc [] x = refl
  take-snoc (y ∷ l) x = ap (◌∷◌ y) (take-snoc l x)

  get_elem?-snoc : (l : List T) (x : T) → get_elem? (l ++ x ∷ []) (length l) ≡ some x
  get_elem?-snoc [] x = refl
  get_elem?-snoc (y ∷ l) x = get_elem?-snoc l x

  -- Pop returns the item that was pushed last and leaves the stack as it was before.
  pub pop-push : (item : T) (s : Stack T) → pop (push item s) ≡ (s, some item)
  unfolding pop push
  pop-push item s =
      rw (pop, one_more, not_empty)
        (ap₂ (λ l o. (record { items = l }, o))
          (ap (λ n. take n (s.items ++ item ∷ [])) back ∙ take-snoc s.items item)
          (ap (get_elem? (s.items ++ item ∷ [])) back ∙ get_elem?-snoc s.items item))
    where
      one_more : length (s.items ++ item ∷ []) ≡ length s.items + 1
      one_more = length-append s.items (item ∷ [])

      not_empty : (length s.items + 1 == 0) ≡ false
      not_empty = ground arith

      back : length s.items + 1 - 1 ≡ length s.items
      back = omega arith
