-- ===== src/Sdk/Token/Chain.antt =====
-- What a chain of extractors returns.
use mathlib.Core.List.{append_assoc, append-nil}
use microservices_base.Prelude.{
  ℕ, ◌≡◌, refl, sym, subst, ◌⊎◌, inl, inr, Option, none, some, List, [], ◌∷◌, ◌++◌,
}
use microservices_base.Prelude.Order.{All, all_nil, all_cons, All-append}
use microservices_base.Sdk.Token.{
  TokenScheme, SdkError, token_missing, new_error, Extracted, granted, failed, extract_loop,
  extract_chained,
}

Extracted-cases :
    (r : Extracted)
    → ((token : List ℕ) × (scheme : TokenScheme) × (r ≡ granted token scheme))
      ⊎ ((err : SdkError) × (r ≡ failed err))
Extracted-cases (granted token scheme) = inl (token, scheme, refl)
Extracted-cases (failed err) = inr (err, refl)

module _ {ℓ} {Context : Type ℓ} where
  -- The extractor returns an error.
  pub record Fails (ctx : Context) (e : Context → Extracted) : Type 0 where
    pub err : SdkError
    pub fails : e ctx ≡ failed err

  -- The outcome of the chain: the result of the first extractor that grants a token, or the error of
  -- the last one, where all fail, or an error of its own, where there is none.
  pub data Outcome (ctx : Context) : List (Context → Extracted) → Extracted → Type ℓ where
    first_granted :
        (before after : List (Context → Extracted)) (e : Context → Extracted) {token : List ℕ}
        {scheme : TokenScheme}
        → All (Fails ctx) before
        → e ctx ≡ granted token scheme
        → Outcome ctx (before ++ e ∷ after) (granted token scheme)
    last_failed :
        (before : List (Context → Extracted)) (e : Context → Extracted) {err : SdkError}
        → All (Fails ctx) before
        → e ctx ≡ failed err
        → Outcome ctx (before ++ e ∷ []) (failed err)
    none_given : Outcome ctx [] (failed (new_error token_missing "no token found"))

  -- The extractors tried so far, and the last error.
  data Tried (ctx : Context) : List (Context → Extracted) → Option SdkError → Type ℓ where
    untried : Tried ctx [] none
    tried :
        (before : List (Context → Extracted)) (e : Context → Extracted) {err : SdkError}
        → All (Fails ctx) before
        → e ctx ≡ failed err
        → Tried ctx (before ++ e ∷ []) (some err)

  Tried-All :
      {ctx : Context} {so_far : List (Context → Extracted)} {last : Option SdkError}
      → Tried ctx so_far last
      → All (Fails ctx) so_far
  Tried-All untried = all_nil
  Tried-All (tried before e all h) =
      All-append all (all_cons (record { err = _; fails = h }) all_nil)

  Tried-Outcome :
      {ctx : Context} {so_far : List (Context → Extracted)} {last : Option SdkError}
      → Tried ctx so_far last
      → Outcome ctx so_far (extract_loop [] ctx last)
  unfolding extract_loop
  Tried-Outcome untried = none_given
  Tried-Outcome (tried before e all h) = last_failed before e all h

  extract_loop-Outcome :
      (es so_far : List (Context → Extracted)) (ctx : Context) (last : Option SdkError)
      → Tried ctx so_far last
      → Outcome ctx (so_far ++ es) (extract_loop es ctx last)
  unfolding extract_loop
  extract_loop-Outcome [] so_far ctx last t =
      subst (λ l. Outcome ctx l (extract_loop [] ctx last)) (sym (append-nil so_far))
        (Tried-Outcome t)
  extract_loop-Outcome (e ∷ es) so_far ctx last t = elim (Extracted-cases (e ctx)) [
    | inl (token, scheme, h) ↦ rw (extract_loop, h) (first_granted so_far es e (Tried-All t) h)
    | inr (err, h) ↦
        rw (extract_loop, h)
          (subst (λ l. Outcome ctx l (extract_loop es ctx (some err)))
            (append_assoc so_far (e ∷ []) es)
            (extract_loop-Outcome es (so_far ++ e ∷ []) ctx (some err)
              (tried so_far e (Tried-All t) h)))
  ]

  -- ChainedExtractor returns what the first extractor grants that grants a token; the error of the
  -- last one, where all fail; and an error of its own, where there is none.
  pub extract_chained-Outcome :
      (es : List (Context → Extracted)) (ctx : Context) → Outcome ctx es (extract_chained es ctx)
  unfolding extract_chained
  extract_chained-Outcome es ctx = extract_loop-Outcome es [] ctx none untried
