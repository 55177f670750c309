-- ===== src/FileUpload/Chunk/TextCodec.antt =====
-- Texts as numbers and back, for the form of a session that the tests use in the place of JSON.
use Prim.Native.Char.{char, code, IsScalar}
use Prim.Native.String.{String, [], ◌∷◌}
use Prim.Native.Nat.{compare, Ordering}
use mathlib.Core.List as L
use text.Mathlib.TextEquality.{IsScalar-prop}
use microservices_base.Prelude.{ℕ, zero, suc, ◌≡◌, refl, ap, ◌∙◌, ◌⊎◌, inl, inr, Option, none}

ordering-cases : (o : Ordering) → (o ≡ Ordering.lt) ⊎ (o ≡ Ordering.eq) ⊎ (o ≡ Ordering.gt)
ordering-cases Ordering.lt = inl refl
ordering-cases Ordering.eq = inr (inl refl)
ordering-cases Ordering.gt = inr (inr refl)

-- Whether a number that is not below the surrogates is a character's.
above_surrogates :
    (n : ℕ)
    → (compare n 55296 ≡ Ordering.eq) ⊎ (compare n 55296 ≡ Ordering.gt)
    → IsScalar n ⊎ (IsScalar n → ⊥)
above_surrogates n (inl e) = elim (ordering-cases (compare 57343 n)) [
  | inl f ↦ elim (ordering-cases (compare n 1114112)) [
    | inl g ↦ inl (rw (e, f, g) tt)
    | inr g ↦ elim g [ inl h ↦ inr (λ p. rw (e, f, h) at p) | inr h ↦ inr (λ p. rw (e, f, h) at p) ]
  ]
  | inr g ↦ elim g [ inl f ↦ inr (λ p. rw (e, f) at p) | inr f ↦ inr (λ p. rw (e, f) at p) ]
]
above_surrogates n (inr e) = elim (ordering-cases (compare 57343 n)) [
  | inl f ↦ elim (ordering-cases (compare n 1114112)) [
    | inl g ↦ inl (rw (e, f, g) tt)
    | inr g ↦ elim g [ inl h ↦ inr (λ p. rw (e, f, h) at p) | inr h ↦ inr (λ p. rw (e, f, h) at p) ]
  ]
  | inr g ↦ elim g [ inl f ↦ inr (λ p. rw (e, f) at p) | inr f ↦ inr (λ p. rw (e, f) at p) ]
]

is_scalar : (n : ℕ) → IsScalar n ⊎ (IsScalar n → ⊥)
is_scalar n = elim (ordering-cases (compare n 55296)) [
  | inl below ↦ inl (rw below tt)
  | inr e ↦ above_surrogates n e
]

abbrev text_length : String → ℕ
text_length [] = 0
text_length (c ∷ s) = suc (text_length s)

abbrev put_codes : String → L.List ℕ → L.List ℕ
put_codes [] rest = rest
put_codes (c ∷ s) rest = L.◌∷◌ (code c) (put_codes s rest)

abbrev pub put_text : String → L.List ℕ → L.List ℕ
put_text s rest = L.◌∷◌ (text_length s) (put_codes s rest)

module _ {A : Type 0} where
  abbrev when_scalar : (n : ℕ) → IsScalar n ⊎ (IsScalar n → ⊥) → (IsScalar n → Option A) → Option A
  when_scalar n (inl p) then = then p
  when_scalar n (inr wrong) then = none

  when_scalar-eq :
      (n : ℕ) (p : IsScalar n) (d : IsScalar n ⊎ (IsScalar n → ⊥)) (then : IsScalar n → Option A)
      → when_scalar n d then ≡ then p
  when_scalar-eq n p (inl q) then = ap then (IsScalar-prop n q p)
  when_scalar-eq n p (inr wrong) then = absurd (wrong p)

  get_codes : ℕ → L.List ℕ → (String → L.List ℕ → Option A) → Option A
  get_codes zero b then = then [] b
  get_codes (suc n) L.[] then = none
  get_codes (suc n) (L.◌∷◌ c b) then =
      when_scalar c (is_scalar c) (λ p. get_codes n b (λ s rest. then (char c p ∷ s) rest))

  -- Reads a text that `put_text` wrote, and goes on with the rest.
  pub get_text : L.List ℕ → (String → L.List ℕ → Option A) → Option A
  get_text L.[] then = none
  get_text (L.◌∷◌ n b) then = get_codes n b then

  get_codes-put_codes :
      (s : String) (rest : L.List ℕ) (then : String → L.List ℕ → Option A)
      → get_codes (text_length s) (put_codes s rest) then ≡ then s rest
  unfolding get_codes
  get_codes-put_codes [] rest then = refl
  get_codes-put_codes (char n p ∷ s) rest then =
      when_scalar-eq n p (is_scalar n)
        (λ q. get_codes (text_length s) (put_codes s rest) (λ t r. then (char n q ∷ t) r))
      ∙ get_codes-put_codes s rest (λ t r. then (char n p ∷ t) r)

  pub get_text-put_text :
      (s : String) (rest : L.List ℕ) (then : String → L.List ℕ → Option A)
      → get_text (put_text s rest) then ≡ then s rest
  unfolding get_text
  get_text-put_text s rest then = get_codes-put_codes s rest then
