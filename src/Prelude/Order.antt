-- ===== src/Prelude/Order.antt =====
-- Comparison functions, `less func(a, b T) bool`, and what sorting by one gives.
use mathlib.Core.Option.{some-injective}
use mathlib.Core.Bool.{Bool-set}
use mathlib.Core.List.{
  reverse, reverse_aux, Mem, Perm, not-mem-nil, mem-cons_self, mem-cons_of_mem, forall_mem-cons,
}
use mathlib.Core.List.Perm
use native.Mathlib.Omega.{arith}
use microservices_base.Prelude.{
  ℕ, zero, suc, ◌≡◌, refl, subst, Bool, true, false, ◌&&◌, not, some, List, [], ◌∷◌, ◌++◌, set,
  get_elem?, replicate, if◌then◌else◌,
}

-- A strict weak order: what a function that sorts by `less` relies on.
pub record StrictWeakOrder {ℓ} {A : Type ℓ} (less : A → A → Bool) : Type ℓ where
  pub asymmetric : (a b : A) → less a b ≡ true → less b a ≡ false
  pub neg_transitive : (a b c : A) → less a b ≡ false → less b c ≡ false → less a c ≡ false

-- Neither is less than the other.
abbrev pub tied {ℓ} : {A : Type ℓ} → (A → A → Bool) → A → A → Bool
tied less a b = not (less a b) && not (less b a)

-- The elements that a test picks out.
abbrev pub only {ℓ} : {A : Type ℓ} → (A → Bool) → List A → List A
only p [] = []
only p (x ∷ xs) = elim (p x) [ true ↦ x ∷ only p xs | false ↦ only p xs ]

pub data All {ℓ κ} {A : Type ℓ} (P : A → Type κ) : List A → Type (ℓ ⊔ κ) where
  all_nil : All P []
  all_cons : {x : A} {l : List A} → P x → All P l → All P (x ∷ l)

module _ {ℓ κ μ} {A : Type ℓ} {P : A → Type κ} {Q : A → Type μ} where
  pub All-map : {l : List A} → ((x : A) → P x → Q x) → All P l → All Q l
  All-map f all_nil = all_nil
  All-map f (all_cons p ps) = all_cons (f _ p) (All-map f ps)

  pub All-both : {l : List A} → All P l → All Q l → All (λ x. P x × Q x) l
  All-both all_nil all_nil = all_nil
  All-both (all_cons p ps) (all_cons q qs) = all_cons (p, q) (All-both ps qs)

pub All-every {ℓ κ} : {A : Type ℓ} {P : A → Type κ} (l : List A) → ((x : A) → P x) → All P l
All-every [] f = all_nil
All-every (x ∷ l) f = all_cons (f x) (All-every l f)

module _ {ℓ} {A : Type ℓ} where
  -- No element is less than one before it.
  pub data SortedBy (less : A → A → Bool) : List A → Type ℓ where
    sorted_nil : SortedBy less []
    sorted_cons :
        {x : A} {l : List A}
        → All (λ y. less y x ≡ false) l
        → SortedBy less l
        → SortedBy less (x ∷ l)

  abbrev pub flip : (A → A → Bool) → A → A → Bool
  flip less a b = less b a

  reverse_aux-SortedBy :
      {less : A → A → Bool} {l acc : List A}
      → SortedBy (flip less) l
      → SortedBy less acc
      → All (λ x. All (λ y. less y x ≡ false) acc) l
      → SortedBy less (reverse_aux l acc)
  reverse_aux-SortedBy sorted_nil q r = q
  reverse_aux-SortedBy (sorted_cons head p) q (all_cons here r) =
      reverse_aux-SortedBy p (sorted_cons here q)
        (All-map (λ z (h, t). all_cons h t) (All-both head r))

  pub reverse-SortedBy :
      {less : A → A → Bool} {l : List A} → SortedBy (flip less) l → SortedBy less (reverse l)
  reverse-SortedBy {l} p = reverse_aux-SortedBy p sorted_nil (All-every l (λ x. all_nil))

  pub only-cons :
      (p : A → Bool) (x : A) (l : List A)
      → only p (x ∷ l) ≡ (if p x then x ∷ only p l else only p l)
  only-cons p x l = ground arith

  only-reverse_aux :
      (p : A → Bool) (l acc : List A)
      → only p (reverse_aux l acc) ≡ reverse_aux (only p l) (only p acc)
  only-reverse_aux p [] acc = refl
  only-reverse_aux p (x ∷ l) acc =
      grind (arith, only-reverse_aux p l (x ∷ acc), only-cons p x acc, only-cons p x l)

  pub only-reverse : (p : A → Bool) (l : List A) → only p (reverse l) ≡ reverse (only p l)
  only-reverse p l = only-reverse_aux p l []

module _ {ℓ κ} {A : Type ℓ} {P : A → Type κ} where
  pub All-append : {l m : List A} → All P l → All P m → All P (l ++ m)
  All-append all_nil q = q
  All-append (all_cons p ps) q = all_cons p (All-append ps q)

  pub All-set : (l : List A) (i : ℕ) {x : A} → All P l → P x → All P (set l i x)
  All-set [] i ps q = all_nil
  All-set (y ∷ l) zero (all_cons p ps) q = all_cons q ps
  All-set (y ∷ l) (suc i) (all_cons p ps) q = all_cons p (All-set l i ps q)

  pub All-at : (l : List A) (i : ℕ) {x : A} → All P l → get_elem? l i ≡ some x → P x
  All-at [] i ps h = cc
  All-at (y ∷ l) zero (all_cons p ps) h = subst P (some-injective _ _ h) p
  All-at (y ∷ l) (suc i) (all_cons p ps) h = All-at l i ps h

  pub All-head : {x : A} {l : List A} → All P (x ∷ l) → P x
  All-head (all_cons p ps) = p

  pub All-tail : {x : A} {l : List A} → All P (x ∷ l) → All P l
  All-tail (all_cons p ps) = ps

  pub All-replicate : (n : ℕ) (x : A) → P x → All P (replicate n x)
  All-replicate zero x p = all_nil
  All-replicate (suc n) x p = all_cons p (All-replicate n x p)

module _ {ℓ} {A : Type ℓ} (test : A → Bool) where
  -- That a test fails for all elements does not depend on their order.
  Mem-All : {l : List A} → All (λ x. test x ≡ false) l → (y : A) → Mem y l → test y ≡ false
  Mem-All all_nil y m = absurd (not-mem-nil m)
  Mem-All (all_cons p ps) y m =
      (forall_mem-cons (λ x. Bool-set (test x) false)).1 (p, Mem-All ps) y m

  All-Mem : (l : List A) → ((y : A) → Mem y l → test y ≡ false) → All (λ x. test x ≡ false) l
  All-Mem [] f = all_nil
  All-Mem (x ∷ l) f = all_cons (f x mem-cons_self) (All-Mem l (λ y m. f y (mem-cons_of_mem x m)))

  pub All-perm :
      {l m : List A} → Perm l m → All (λ x. test x ≡ false) m → All (λ x. test x ≡ false) l
  All-perm {l} p a = All-Mem l (λ y k. Mem-All a y ((Perm.mem_iff p).0 k))
