-- ===== src/Pagination/Pages.antt =====
-- The number of pages, and the client.
use native.Mathlib.Omega.{arith}
use native.Mathlib.Nat.{zero-div, div-le_self, div-eq_of_lt}
use microservices_base.Prelude.{
  ℕ, zero, suc, ◌+◌, ◌-◌, ◌/◌, ◌≤◌, ◌<◌, ◌≡◌, refl, sym, subst, ap, ◌∙◌, false, some, List, [], ◌∷◌,
  length, inl, inr, Bool-cases,
}
use microservices_base.Prelude.Int.{ℤ, pos, negsuc, ltb_ℤ, leb_ℤ, ◌-ℤ◌}
use microservices_base.Prelude.Word.{wrap64, wrap64_of_InInt64, half_word, sub64}
use microservices_base.Pagination.{
  Page, PageError, max_limit, page_of, refused, new_page, PageInfo, new_page_info, new_page_result,
  div64,
}
use microservices_base.Pagination.Walk.{at, add64-pos, answer, read_all, read_all-at, pages_past}

sub64-pos : (a b : ℕ) → b ≤ a → a < half_word → sub64 (pos a) (pos b) ≡ pos (a - b)
sub64-pos a b le h = ap wrap64 plain ∙ wrap64_of_InInt64 (pos (a - b)) (omega arith)
  where
    plain : pos a -ℤ pos b ≡ pos (a - b)
    plain = ground arith

div64-pos : (a k : ℕ) → 0 < k → a < half_word → div64 (pos a) (pos k) ≡ some (pos (a / k))
unfolding div64
div64-pos a zero kp h = absurd (omega arith)
div64-pos a (suc k) kp h =
    ap some (wrap64_of_InInt64 (pos (a / suc k)) (omega (arith, div-le_self a (suc k))))

abbrev first_info : ℕ → ℕ → PageInfo
first_info k n = record {
  page = pos 1;
  per_page = pos k;
  total_pages = pos ((n + k - 1) / k);
  total_items = pos n;
}

new_page_info-first :
    (k n : ℕ)
    → 0 < k
    → n + k < half_word
    → new_page_info (pos 0) (pos k) (pos n) ≡ some (first_info k n)
unfolding new_page_info
new_page_info-first k n kp h =
    rw
      (
        div64-pos 0 k kp (omega arith),
        zero-div k,
        add64-pos 0 1 (omega arith),
        add64-pos n k h,
        sub64-pos (n + k) 1 (omega arith) h,
        div64-pos (n + k - 1) k kp (omega arith),
      )
      refl

page_of_inj : {p q : Page} → page_of p ≡ page_of q → p ≡ q
page_of_inj h = cc h

refused_not {μ} : {P : Type μ} {error : PageError} {p : Page} → refused error ≡ page_of p → P
refused_not h = cc h

positive_part : (limit : ℤ) → leb_ℤ limit (pos 0) ≡ false → (k : ℕ) × (0 < k) × (limit ≡ pos k)
positive_part (pos k) h = (k, ground arith, refl)
positive_part (negsuc k) h = ground arith

new_page-first :
    (limit : ℤ) (p : Page)
    → new_page (pos 0) limit ≡ page_of p
    → (k : ℕ) × (0 < k) × (k ≤ 100) × (p ≡ at 0 k)
unfolding new_page
new_page-first limit p h = elim (Bool-cases (leb_ℤ limit (pos 0))) [
  | inl low ↦ refused_not (rw (new_page, low) at h)
  | inr above ↦ elim (Bool-cases (ltb_ℤ max_limit limit)) [
    | inl high ↦ refused_not (rw (new_page, above, high) at h)
    | inr within ↦
        let (k, kp, e) = positive_part limit above in
        (
          k,
          kp,
          ground (arith, rw e at within),
          sym (page_of_inj (rw (new_page, above, within) at h))
              ∙ ap (λ z. record { offset = pos 0; limit = z }) e,
        )
  ]
]

-- A list without items has one page, without items.
abbrev pub at_least_one : ℕ → ℕ
at_least_one zero = 1
at_least_one (suc pages) = suc pages

-- The client gets all items of the list, in as many queries as there are pages.
abbrev Reads {ℓ} : {T : Type ℓ} → Page → List T → Type ℓ
Reads p items =
    (info : PageInfo) × (pages : ℕ) × (new_page_info p.offset p.limit (pos (length items))
      ≡ some info)
    × (info.total_pages ≡ pos pages)
    × (read_all (suc (length items)) items p ≡ some (items, at_least_one pages))

read_none {ℓ} : {T : Type ℓ} (k : ℕ) → 0 < k → read_all {T = T} 1 [] (at 0 k) ≡ some ([], 1)
unfolding new_page_result wrap64
read_none zero kp = absurd (omega arith)
read_none (suc k) kp = refl

nil-Reads {ℓ} : {T : Type ℓ} (k : ℕ) → 0 < k → k ≤ 100 → Reads {T = T} (at 0 k) []
nil-Reads {T} k kp kb = (
  first_info k 0,
  (0 + k - 1) / k,
  new_page_info-first k 0 kp (omega arith),
  refl,
  read_none k kp ∙ ap (λ z. answer {T = T} [] (at_least_one z)) (sym (div-eq_of_lt (omega arith))),
)

positive_pages : (n k : ℕ) → 0 < n → 0 < k → at_least_one ((n + k - 1) / k) ≡ (n + k - 1) / k
positive_pages n k np kp = ap at_least_one step ∙ sym step
  where
    moved : n + k - 1 ≡ n - 1 + k
    moved = omega arith

    step : (n + k - 1) / k ≡ suc ((n - 1) / k)
    step = ap (λ z. z / k) moved ∙ pages_past (n - 1) k kp

first-Reads {ℓ} :
    {T : Type ℓ} (k : ℕ) (items : List T)
    → 0 < k
    → k ≤ 100
    → length items < 4611686018427387904
    → Reads (at 0 k) items
first-Reads k [] kp kb short = nil-Reads k kp kb
first-Reads k (x ∷ rest) kp kb short =
    let n = length (x ∷ rest) in
    (
      first_info k n,
      (n + k - 1) / k,
      new_page_info-first k n kp (omega arith),
      refl,
      read_all-at (suc n) 0 k (x ∷ rest) kp kb (omega arith) short (omega arith)
          ∙ ap (λ z. answer (x ∷ rest) ((z + k - 1) / k)) whole
          ∙ ap (answer (x ∷ rest)) (sym (positive_pages n k (omega arith) kp)),
    )
  where
    whole : length (x ∷ rest) - 0 ≡ length (x ∷ rest)
    whole = omega arith

-- A client that starts at a page at offset 0 which NewPage grants, and asks for the Next page as long
-- as the result has more, gets every item of any list of fewer than 2 ^ 62 items, in order and once,
-- in as many queries as NewPageInfo counts pages, and in one query where the list is empty.
pub read_all-new_page {ℓ} :
    {T : Type ℓ} (limit : ℤ) (p : Page) (items : List T)
    → new_page (pos 0) limit ≡ page_of p
    → length items < 4611686018427387904
    → (info : PageInfo) × (pages : ℕ) × (new_page_info p.offset p.limit (pos (length items))
        ≡ some info)
      × (info.total_pages ≡ pos pages)
      × (read_all (suc (length items)) items p ≡ some (items, at_least_one pages))
read_all-new_page limit p items granted short =
    let (k, kp, kb, e) = new_page-first limit p granted in
    subst (λ q. Reads q items) (sym e) (first-Reads k items kp kb short)
