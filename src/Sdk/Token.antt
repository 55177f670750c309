-- ===== src/Sdk/Token.antt =====
-- sdk/go/src/token: the extraction of tokens. A text is its characters' codes. ToLower is taken on the
-- ASCII letters: no other character has a letter of the two scheme names as its lower case.
mod Header
mod Chain
mod Tests
use Prim.Native.Char.{code}
use Prim.Native.String.{String}
use microservices_base.Prelude.{
  ℕ, ◌+◌, Bool, true, false, ◌&&◌, ◌||◌, Option, none, some, List, [], ◌∷◌, ◌++◌, map, leb, ◌⊎◌,
  inl, inr, if◌then◌else◌,
}
use microservices_base.Prelude.Eq.{◌==◌, comparable_nat, comparable_list}

-- The code points of a text. `String` has its own `[]` and `∷`.
abbrev pub codes : String → List ℕ
codes String.[] = []
codes (String.◌∷◌ c s) = code c ∷ codes s

-- Go's `type TokenScheme string`.
abbrev pub TokenScheme : Type 0
TokenScheme = List ℕ

abbrev pub scheme_bearer : TokenScheme
scheme_bearer = codes "Bearer"

abbrev pub scheme_dpop : TokenScheme
scheme_dpop = codes "DPoP"

abbrev pub scheme_unknown : TokenScheme
scheme_unknown = []

unfoldable pub is_valid : TokenScheme → Bool
is_valid s = s == scheme_bearer || s == scheme_dpop

unfoldable pub all_schemes : List TokenScheme
all_schemes = scheme_bearer ∷ scheme_dpop ∷ []

unfoldable pub to_lower : ℕ → ℕ
to_lower c = if leb 65 c && leb c 90 then c + 32 else c

unfoldable pub parse_scheme : List ℕ → TokenScheme
parse_scheme s =
    let lower = map to_lower s in
    if lower == codes "bearer"
    then scheme_bearer
    else if lower == codes "dpop"
    then scheme_dpop
    else scheme_unknown

-- The codes of errors.NewError.
pub data ErrorCode : Type 0 where
  unauthorized token_missing token_invalid dpop_required : ErrorCode

pub record SdkError : Type 0 where
  pub error_code : ErrorCode
  pub message : String

abbrev pub new_error : ErrorCode → String → SdkError
new_error error_code message = record { error_code = error_code; message = message }

-- What Extract returns: a token and its scheme, or an error.
pub data Extracted : Type 0 where
  granted : List ℕ → TokenScheme → Extracted
  failed : SdkError → Extracted

-- `strings.SplitN(s, " ", 2)`, where it has two parts.
unfoldable pub split_at_space : List ℕ → Option (List ℕ × List ℕ)
split_at_space [] = none
split_at_space (c ∷ s) =
    if c == 32
    then some ([], s)
    else elim (split_at_space s) [ none ↦ none | some (name, rest) ↦ some (c ∷ name, rest) ]

-- The rest of ParseAuthorizationHeader, on the parts.
unfoldable pub check_parts : Option (List ℕ × List ℕ) → Extracted
check_parts none = failed (new_error token_invalid "invalid authorization format")
check_parts (some (name, token)) =
    let scheme = parse_scheme (map to_lower name) in
    if token == []
    then failed (new_error token_missing "empty token")
    else if scheme == scheme_unknown
    then failed (new_error token_invalid "unsupported authorization scheme")
    else granted token scheme

unfoldable pub parse_authorization_header : List ℕ → Extracted
parse_authorization_header auth = check_parts (split_at_space auth)

unfoldable pub format_authorization_header : List ℕ → TokenScheme → List ℕ
format_authorization_header token scheme = scheme ++ 32 ∷ token

-- What the extractors read of a request: the two headers, which are empty where they are missing,
-- and the cookies by their names.
pub record Request : Type 0 where
  pub authorization : List ℕ
  pub dpop : List ℕ
  pub cookie : String → Option (List ℕ)

unfoldable pub extract_http : Option Request → Extracted
extract_http none = failed (new_error unauthorized "no request provided")
extract_http (some r) =
    if r.authorization == []
    then failed (new_error token_missing "missing authorization header")
    else parse_authorization_header r.authorization

-- The values of `authorization` in the metadata of the context, where it has metadata.
unfoldable pub extract_grpc : Option (List (List ℕ)) → Extracted
extract_grpc none = failed (new_error unauthorized "missing metadata")
extract_grpc (some []) = failed (new_error token_missing "missing authorization header")
extract_grpc (some (value ∷ values)) = parse_authorization_header value

unfoldable pub read_cookie : Option (List ℕ) → TokenScheme → Extracted
read_cookie none scheme = failed (new_error token_missing "missing token cookie")
read_cookie (some value) scheme =
    if value == []
    then failed (new_error token_missing "empty token cookie")
    else granted value (if scheme == scheme_unknown then scheme_bearer else scheme)

unfoldable pub extract_cookie : Option Request → String → TokenScheme → Extracted
extract_cookie none cookie_name scheme = failed (new_error unauthorized "no request provided")
extract_cookie (some r) cookie_name scheme = read_cookie (r.cookie cookie_name) scheme

-- An extractor is its Extract method, a function of the context.
module _ {ℓ} {Context : Type ℓ} where
  unfoldable pub extract_loop : List (Context → Extracted) → Context → Option SdkError → Extracted
  extract_loop [] ctx none = failed (new_error token_missing "no token found")
  extract_loop [] ctx (some last_err) = failed last_err
  extract_loop (extractor ∷ extractors) ctx last_err = elim (extractor ctx) [
    | granted token scheme ↦ granted token scheme
    | failed err ↦ extract_loop extractors ctx (some err)
  ]

  -- ChainedExtractor.Extract.
  unfoldable pub extract_chained : List (Context → Extracted) → Context → Extracted
  extract_chained extractors ctx = extract_loop extractors ctx none

-- A token of one scheme, or an error.
unfoldable pub of_scheme : TokenScheme → SdkError → Extracted → List ℕ ⊎ SdkError
of_scheme wanted other (failed err) = inr err
of_scheme wanted other (granted token scheme) = if scheme == wanted then inl token else inr other

unfoldable pub extract_bearer_token : Request → List ℕ ⊎ SdkError
extract_bearer_token r =
    of_scheme scheme_bearer (new_error token_invalid "expected Bearer token")
      (extract_http (some r))

unfoldable pub extract_dpop_token : Request → List ℕ ⊎ SdkError
extract_dpop_token r =
    of_scheme scheme_dpop (new_error token_invalid "expected DPoP token") (extract_http (some r))

unfoldable pub get_dpop_proof : Request → List ℕ ⊎ SdkError
get_dpop_proof r =
    if r.dpop == [] then inr (new_error dpop_required "missing DPoP header") else inl r.dpop
