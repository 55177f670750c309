-- ===== src/Collections/PQueue/Order.antt =====
-- The order of a heap, and heaps with one element out of place.
use mathlib.Core.List.{Perm}
use mathlib.Core.List.Perm
use native.Mathlib.Omega.{arith}
use microservices_base.Prelude.{
  ℕ, zero, suc, ◌-◌, ◌/◌, ◌≤◌, ◌<◌, ◌≡◌, ◌≢◌, refl, ◌∙◌, inl, inr, Bool, false, Bool-cases, List,
  length, get_or,
}
use microservices_base.Prelude.Eq.{comparable_nat}
use microservices_base.Prelude.Order.{StrictWeakOrder}
use microservices_base.Collections.PQueue.Array.{
  swapped, length-swapped, swapped-perm, swapped_other,
}

abbrev pub parent : ℕ → ℕ
parent c = (c - 1) / 2

module _ {ℓ} {A : Type ℓ} (less : A → A → Bool) (d : A) where
  -- The element at `c` is not less than the one at `p`.
  abbrev pub Above : List A → ℕ → ℕ → Type 0
  Above h p c = less (get_or h c d) (get_or h p d) ≡ false

  -- The first `n` elements are in the order of a heap.
  abbrev pub Heap : ℕ → List A → Type 0
  Heap n h = (c : ℕ) → 0 < c → c < n → Above h (parent c) c

  -- All edges are in order but the one above `j`, and the children of `j` fit below its parent.
  pub record UpInv (h : List A) (j : ℕ) : Type 0 where
    pub inside : j < length h
    pub edges : (c : ℕ) → 0 < c → c < length h → c ≢ j → Above h (parent c) c
    pub bridged : (c : ℕ) → 0 < c → c < length h → parent c ≡ j → 0 < j → Above h (parent j) c

  -- All edges are in order but those below `i`, and the children of `i` fit below its parent.
  pub record DownInv (n : ℕ) (h : List A) (i : ℕ) : Type 0 where
    pub inside : i < n
    pub within : n ≤ length h
    pub edges : (c : ℕ) → 0 < c → c < n → parent c ≢ i → Above h (parent c) c
    pub bridged : (c : ℕ) → 0 < c → c < n → parent c ≡ i → 0 < i → Above h (parent i) c

  -- What is known of the elements at `c` and `p` after a swap.
  pub Above-of_eq :
      (h g : List A) (p c p' c' : ℕ)
      → get_or g p d ≡ get_or h p' d
      → get_or g c d ≡ get_or h c' d
      → Above h p' c'
      → Above g p c
  Above-of_eq h g p c p' c' e f a = rw (e, f) a

  pub Heap-le : (h : List A) {m n : ℕ} → m ≤ n → Heap n h → Heap m h
  Heap-le h le v c p q = v c p (omega arith)

  module _ (o : StrictWeakOrder less) where
    -- The root of a heap is not greater than any element.
    pub Heap-root : {n : ℕ} (h : List A) → Heap n h → (k c : ℕ) → c < k → c < n → Above h 0 c
    Heap-root h v zero c p q = absurd (omega arith)
    Heap-root h v (suc k) zero p q = irreflexive (get_or h 0 d)
      where
        irreflexive : (x : A) → less x x ≡ false
        irreflexive x = elim (Bool-cases (less x x)) [
          | inl below ↦ o.asymmetric x x below
          | inr not_below ↦ not_below
        ]
    Heap-root h v (suc k) (suc c) p q =
        o.neg_transitive (get_or h (suc c) d) (get_or h (parent (suc c)) d) (get_or h 0 d)
          (v (suc c) (omega arith) q) (Heap-root h v k (parent (suc c)) (omega arith) (omega arith))

  -- A list of the same elements whose first `n` are a heap.
  pub record Heaped (n : ℕ) (h g : List A) : Type ℓ where
    pub size : length g ≡ length h
    pub heap : Heap n g
    pub same : Perm g h
    pub rest : (c : ℕ) → n ≤ c → get_or g c d ≡ get_or h c d

  pub unchanged : {n : ℕ} (h : List A) → Heap n h → Heaped n h h
  unchanged h v = record { size = refl; heap = v; same = Perm.rfl; rest = λ c q. refl }

  -- Past a swap within the first `n`.
  pub Heaped-swapped :
      {n : ℕ} (h : List A) (i j : ℕ) {g : List A}
      → i < n
      → j < n
      → n ≤ length h
      → Heaped n (swapped d h i j) g
      → Heaped n h g
  Heaped-swapped h i j hi hj le r = record {
    size = r.size ∙ length-swapped d h i j;
    heap = r.heap;
    same = Perm.trans r.same (swapped-perm d h i j (omega arith) (omega arith));
    rest = λ c q.
        r.rest c q
        ∙ swapped_other d h i j (omega arith) (omega arith) c (λ e. omega arith) (λ e. omega arith);
  }
