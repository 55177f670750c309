-- ===== src/Pagination/Walk.antt =====
-- A client that reads a list page by page.
use native.Mathlib.Omega.{arith}
use Prim.Native.Nat.{min}
use native.Mathlib.Nat.{div-eq_of_lt, add-div_right}
use microservices_base.Prelude.{
  ℕ, zero, suc, ◌+◌, ◌-◌, ◌/◌, ◌≤◌, ◌<◌, ltb, ◌≡◌, refl, sym, ap, ap₂, ◌∙◌, Option, none, some,
  List, [], ◌∷◌, ◌++◌, length, take, drop, take-append-drop, length-take, length-drop, take_whole,
  if◌then◌else◌, inl, inr, Bool-cases,
}
use microservices_base.Prelude.Int.{pos, pos_part, ◌+ℤ◌}
use microservices_base.Prelude.Word.{wrap64, wrap64_of_InInt64, half_word, add64}
use microservices_base.Pagination.{Page, next, new_page_result}

abbrev pub at : ℕ → ℕ → Page
at o k = record { offset = pos o; limit = pos k }

pub add64-pos : (a b : ℕ) → a + b < half_word → add64 (pos a) (pos b) ≡ pos (a + b)
add64-pos a b h = ap wrap64 plain ∙ wrap64_of_InInt64 (pos (a + b)) (omega arith)
  where
    plain : pos a +ℤ pos b ≡ pos (a + b)
    plain = ground arith

next-at : (o k : ℕ) → o + k < half_word → next (at o k) ≡ at (o + k) k
unfolding next
next-at o k h = ap (λ z. record { offset = z; limit = pos k }) (add64-pos o k h)

pub pages_past : (x k : ℕ) → 0 < k → (x + k) / k ≡ suc (x / k)
pages_past x k kp = omega (arith, add-div_right x kp)

pages_more : (o k n : ℕ) → 0 < k → o + k < n → suc ((n - (o + k) + k - 1) / k) ≡ (n - o + k - 1) / k
pages_more o k n kp h =
    ap (λ z. suc (z / k)) before ∙ sym (pages_past (n - o - 1) k kp) ∙ ap (λ z. z / k) after
  where
    before : n - (o + k) + k - 1 ≡ n - o - 1
    before = omega arith

    after : n - o - 1 + k ≡ n - o + k - 1
    after = omega arith

pages_last : (o k n : ℕ) → o < n → n ≤ o + k → 1 ≡ (n - o + k - 1) / k
pages_last o k n ob h =
    ap suc (sym (div-eq_of_lt {n = n - o - 1} {m = k} (omega arith)))
    ∙ sym (pages_past (n - o - 1) k (omega arith))
    ∙ ap (λ z. z / k) after
  where
    after : n - o - 1 + k ≡ n - o + k - 1
    after = omega arith

module _ {ℓ} {T : Type ℓ} where
  -- The items of a page, as a query with its offset and its limit returns them.
  abbrev pub query : List T → Page → List T
  query stored p = take (pos_part p.limit) (drop (pos_part p.offset) stored)

  abbrev pub joined : List T → Option (List T × ℕ) → Option (List T × ℕ)
  joined items none = none
  joined items (some (more, queries)) = some (items ++ more, suc queries)

  -- The items that the client gets, and the number of its queries: it asks for the next page as
  -- long as the result has more. The fuel bounds the queries.
  abbrev pub read_all : ℕ → List T → Page → Option (List T × ℕ)
  read_all zero stored p = none
  read_all (suc fuel) stored p =
      let rest = read_all fuel stored (next p) in
      let result = new_page_result (query stored p) (pos (length stored)) p in
      if result.has_more then joined result.items rest else some (result.items, 1)

  drop-nil : (n : ℕ) → drop {A = T} n [] ≡ []
  drop-nil zero = refl
  drop-nil (suc n) = refl

  drop-drop : (a b c : ℕ) (l : List T) → c ≡ a + b → drop b (drop a l) ≡ drop c l
  drop-drop zero b c l h = ap (λ n. drop n l) (omega arith)
  drop-drop (suc a) b zero l h = absurd (omega arith)
  drop-drop (suc a) b (suc c) [] h = drop-nil b
  drop-drop (suc a) b (suc c) (x ∷ l) h = drop-drop a b c l (omega arith)

  length-query :
      (o k : ℕ) (stored : List T) → length (query stored (at o k)) ≡ min k (length stored - o)
  length-query o k stored = omega (arith, length-take k (drop o stored), length-drop o stored)

  has_more-at :
      (o k : ℕ) (stored : List T)
      → o < length stored
      → length stored < 4611686018427387904
      → (new_page_result (query stored (at o k)) (pos (length stored)) (at o k)).has_more
        ≡ ltb (o + k) (length stored)
  unfolding new_page_result
  has_more-at o k stored ob lb =
      let got = length-query o k stored in
      rw (add64-pos o (length (query stored (at o k))) (omega (arith, got))) (ground (arith, got))

  items-at :
      (stored : List T) (p : Page)
      → (new_page_result (query stored p) (pos (length stored)) p).items ≡ query stored p
  unfolding new_page_result
  items-at stored p = refl

  front_page :
      (o k : ℕ) (stored : List T) → query stored (at o k) ++ drop (o + k) stored ≡ drop o stored
  front_page o k stored =
      ap (◌++◌ (query stored (at o k))) (sym (drop-drop o k (o + k) stored refl))
      ∙ take-append-drop k (drop o stored)

  last_page :
      (o k : ℕ) (stored : List T) → length stored ≤ o + k → query stored (at o k) ≡ drop o stored
  last_page o k stored h = take_whole k (drop o stored) (omega (arith, length-drop o stored))

  abbrev pub answer : List T → ℕ → Option (List T × ℕ)
  answer items queries = some (items, queries)

  paired :
      {items others : List T} {m n : ℕ} → items ≡ others → m ≡ n → answer items m ≡ answer others n
  paired e f = ap₂ answer e f

  -- Reading from an offset within the list takes what is left in the full pages that it makes.
  pub read_all-at :
      (fuel o k : ℕ) (stored : List T)
      → 0 < k
      → k ≤ 100
      → o < length stored
      → length stored < 4611686018427387904
      → length stored ≤ o + fuel
      → read_all fuel stored (at o k) ≡ some (drop o stored, (length stored - o + k - 1) / k)
  read_all-at zero o k stored kp kb ob lb f = absurd (omega arith)
  read_all-at (suc fuel) o k stored kp kb ob lb f =
      elim (Bool-cases (ltb (o + k) (length stored))) [
        | inl more ↦
            rw
              (
                has_more-at o k stored ob lb,
                more,
                items-at stored (at o k),
                next-at o k (ground arith),
                read_all-at fuel (o + k) k stored kp kb (ground arith) lb (omega arith),
              )
              (paired (front_page o k stored) (pages_more o k (length stored) kp (ground arith)))
        | inr last ↦
            rw (has_more-at o k stored ob lb, last, items-at stored (at o k))
              (paired (last_page o k stored (ground arith))
                (pages_last o k (length stored) ob (ground arith)))
      ]
