-- ===== src/Sdk/Token/Header.antt =====
-- Which authorization headers are accepted.
use native.Mathlib.Omega.{arith}
use microservices_base.Prelude.{
  ℕ, ◌≡◌, ◌≢◌, refl, sym, ap, subst, ◌∙◌, ◌↔◌, inl, inr, Bool, true, false, Option, none, some,
  List, [], ◌∷◌, ◌++◌, map, Bool-cases,
}
use microservices_base.Prelude.Eq.{
  ◌==◌, comparable_nat, comparable_list, eq_of_==, ==_of_ne, ne_of_==,
}
use microservices_base.Prelude.Order.{All, all_nil, all_cons}
use microservices_base.Sdk.Token.{
  codes, TokenScheme, scheme_bearer, scheme_dpop, scheme_unknown, to_lower, parse_scheme, Extracted,
  granted, failed, split_at_space, check_parts, parse_authorization_header,
  format_authorization_header, is_valid,
}

abbrev NoSpace : List ℕ → Type 0
NoSpace = All (λ c. c ≢ 32)

split_at_space-append :
    {name : List ℕ} (token : List ℕ)
    → NoSpace name
    → split_at_space (name ++ 32 ∷ token) ≡ some (name, token)
unfolding split_at_space
split_at_space-append token all_nil = refl
split_at_space-append token (all_cons {x} {l} p ps) =
    rw (==_of_ne x 32 p, split_at_space-append token ps) refl

-- What the split of a header says of it.
data Parts (auth : List ℕ) : Option (List ℕ × List ℕ) → Type 0 where
  whole : Parts auth none
  parts : {name token : List ℕ} → auth ≡ name ++ 32 ∷ token → Parts auth (some (name, token))

abbrev one_more : ℕ → Option (List ℕ × List ℕ) → Option (List ℕ × List ℕ)
one_more c none = none
one_more c (some (name, rest)) = some (c ∷ name, rest)

Parts-cons :
    (c : ℕ) {auth : List ℕ} {r : Option (List ℕ × List ℕ)}
    → Parts auth r
    → Parts (c ∷ auth) (one_more c r)
Parts-cons c whole = whole
Parts-cons c (parts e) = parts (ap (◌∷◌ c) e)

split_at_space-Parts : (auth : List ℕ) → Parts auth (split_at_space auth)
unfolding split_at_space
split_at_space-Parts [] = whole
split_at_space-Parts (c ∷ auth) = elim (Bool-cases (c == 32)) [
  | inl space ↦ rw (split_at_space, space) (parts (ap (λ d. d ∷ auth) (eq_of_== c 32 space)))
  | inr other ↦ rw (split_at_space, other) (Parts-cons c (split_at_space-Parts auth))
]

to_lower_idem : (c : ℕ) → to_lower (to_lower c) ≡ to_lower c
unfolding to_lower
to_lower_idem c = ground arith

lower_idem : (s : List ℕ) → map to_lower (map to_lower s) ≡ map to_lower s
lower_idem [] = refl
lower_idem (c ∷ s) = cc (to_lower_idem c, lower_idem s)

NoSpace-map : (s : List ℕ) → NoSpace (map to_lower s) → NoSpace s
unfolding to_lower
NoSpace-map [] h = all_nil
NoSpace-map (c ∷ s) (all_cons p ps) = all_cons (λ e. p (ap to_lower e)) (NoSpace-map s ps)

-- A name in any mixture of capitals is the name of a scheme.
pub data Names : List ℕ → TokenScheme → Type 0 where
  names_bearer : {name : List ℕ} → map to_lower name ≡ codes "bearer" → Names name scheme_bearer
  names_dpop : {name : List ℕ} → map to_lower name ≡ codes "dpop" → Names name scheme_dpop

Names-NoSpace : {name : List ℕ} {scheme : TokenScheme} → Names name scheme → NoSpace name
Names-NoSpace {name} (names_bearer h) = NoSpace-map name (
    subst NoSpace (sym h) (
      all_cons (λ e. omega arith)
        (all_cons (λ e. omega arith)
          (all_cons (λ e. omega arith)
            (all_cons (λ e. omega arith)
              (all_cons (λ e. omega arith) (all_cons (λ e. omega arith) all_nil)))))))
Names-NoSpace {name} (names_dpop h) = NoSpace-map name (
    subst NoSpace (sym h) (
      all_cons (λ e. omega arith)
        (all_cons (λ e. omega arith)
          (all_cons (λ e. omega arith) (all_cons (λ e. omega arith) all_nil)))))

-- The header is a scheme's name, a space and a token that is not empty.
pub record WellFormed (auth token : List ℕ) (scheme : TokenScheme) : Type 0 where
  pub name : List ℕ
  pub whole : auth ≡ name ++ 32 ∷ token
  pub named : Names name scheme
  pub present : token ≢ []

parse_scheme-Names :
    {name : List ℕ} {scheme : TokenScheme}
    → Names name scheme
    → parse_scheme (map to_lower name) ≡ scheme
unfolding parse_scheme
parse_scheme-Names {name} (names_bearer h) = rw (lower_idem name, h) refl
parse_scheme-Names {name} (names_dpop h) = rw (lower_idem name, h) refl

Names-parse_scheme :
    (name : List ℕ)
    → parse_scheme (map to_lower name) ≢ []
    → Names name (parse_scheme (map to_lower name))
unfolding parse_scheme
Names-parse_scheme name h = elim (Bool-cases (map to_lower (map to_lower name) == codes "bearer")) [
  | inl bearer ↦
      rw (parse_scheme, bearer)
        (names_bearer (sym (lower_idem name) ∙ eq_of_== _ (codes "bearer") bearer))
  | inr other ↦ elim (Bool-cases (map to_lower (map to_lower name) == codes "dpop")) [
    | inl dpop ↦
        rw (parse_scheme, other, dpop)
          (names_dpop (sym (lower_idem name) ∙ eq_of_== _ (codes "dpop") dpop))
    | inr neither ↦ absurd (h (rw (parse_scheme, other, neither) refl))
  ]
]

abbrev token_of : Extracted → List ℕ
token_of (granted token scheme) = token
token_of (failed err) = []

abbrev scheme_of : Extracted → TokenScheme
scheme_of (granted token scheme) = scheme
scheme_of (failed err) = []

abbrev is_granted : Extracted → Bool
is_granted (granted token scheme) = true
is_granted (failed err) = false

check_parts-WellFormed :
    {auth : List ℕ} {r : Option (List ℕ × List ℕ)}
    → Parts auth r
    → is_granted (check_parts r) ≡ true
    → WellFormed auth (token_of (check_parts r)) (scheme_of (check_parts r))
unfolding check_parts
check_parts-WellFormed whole h = cc
check_parts-WellFormed (parts {name} {token} e) h = elim (Bool-cases (token == [])) [
  | inl empty ↦ cc (rw (check_parts, empty) at h)
  | inr present ↦ elim (Bool-cases (parse_scheme (map to_lower name) == scheme_unknown)) [
    | inl unknown ↦ cc (rw (check_parts, present, unknown) at h)
    | inr known ↦
        rw (check_parts, present, known)
          (record {
            name = name;
            whole = e;
            named = Names-parse_scheme name (ne_of_== _ [] known);
            present = ne_of_== token [] present;
          })
  ]
]

Names-known :
    {name : List ℕ} {scheme : TokenScheme} → Names name scheme → (scheme == scheme_unknown) ≡ false
Names-known (names_bearer h) = refl
Names-known (names_dpop h) = refl

-- ParseAuthorizationHeader grants a token with a scheme exactly when the header is the scheme's name,
-- in any mixture of capitals, a space, and the token, which is not empty.
pub parse_authorization_header_iff :
    (auth token : List ℕ) (scheme : TokenScheme)
    → (parse_authorization_header auth ≡ granted token scheme) ↔ WellFormed auth token scheme
unfolding parse_authorization_header check_parts
parse_authorization_header_iff auth token scheme = (
  λ h.
      subst (λ r. WellFormed auth (token_of r) (scheme_of r)) h
        (check_parts-WellFormed (split_at_space-Parts auth) (ap is_granted h)),
  λ w.
      ap parse_authorization_header w.whole
      ∙ rw
          (
            split_at_space-append token (Names-NoSpace w.named),
            ==_of_ne token [] w.present,
            parse_scheme-Names w.named,
            Names-known w.named,
          )
          refl,
)

is_valid-Names : (scheme : TokenScheme) → is_valid scheme ≡ true → Names scheme scheme
unfolding is_valid to_lower
is_valid-Names scheme valid = elim (Bool-cases (scheme == scheme_bearer)) [
  | inl bearer ↦
      subst (λ s. Names s s) (sym (eq_of_== scheme scheme_bearer bearer)) (names_bearer refl)
  | inr other ↦
      subst (λ s. Names s s) (sym (eq_of_== scheme scheme_dpop (rw (is_valid, other) at valid)))
        (names_dpop refl)
]

-- Parsing a formatted header gives back the token and the scheme, for each valid scheme.
pub parse_authorization_header-format_authorization_header :
    (token : List ℕ) (scheme : TokenScheme)
    → token ≢ []
    → is_valid scheme ≡ true
    → parse_authorization_header (format_authorization_header token scheme) ≡ granted token scheme
unfolding format_authorization_header is_valid
parse_authorization_header-format_authorization_header token scheme present valid =
    (parse_authorization_header_iff (scheme ++ 32 ∷ token) token scheme).1 (record {
      name = scheme;
      whole = refl;
      named = is_valid-Names scheme valid;
      present = present;
    })
