-- ===== src/Sdk/Token/Tests.antt =====
-- Runs of the extractors on a request.
use microservices_base.Prelude.{◌≡◌, ◌≢◌, refl, ◌↔◌, Option, some, List, [], ◌∷◌, true}
use microservices_base.Prelude.Eq.{comparable_nat, comparable_list}
use microservices_base.Sdk.Token.{
  codes, scheme_dpop, scheme_bearer, is_valid, Extracted, granted, Request, extract_http,
  extract_cookie, parse_authorization_header, format_authorization_header, extract_chained,
  split_at_space, check_parts, parse_scheme, to_lower, read_cookie, extract_loop,
}
use microservices_base.Sdk.Token.Header.{
  WellFormed, parse_authorization_header_iff,
  parse_authorization_header-format_authorization_header,
}

abbrev with_cookie : Request
with_cookie = record {
  authorization = codes "Basic abc";
  dpop = [];
  cookie = λ name. some (codes "xyz");
}

abbrev both : List (Option Request → Extracted)
both = extract_http ∷ (λ r. extract_cookie r "session" []) ∷ []

chain_run : extract_chained both (some with_cookie) ≡ granted (codes "xyz") scheme_bearer
unfolding extract_chained extract_loop extract_http extract_cookie read_cookie
    parse_authorization_header split_at_space check_parts parse_scheme to_lower
chain_run = refl

parse_authorization_header_iff_example :
    (parse_authorization_header (codes "bEARer abc") ≡ granted (codes "abc") scheme_bearer)
    ↔ WellFormed (codes "bEARer abc") (codes "abc") scheme_bearer
parse_authorization_header_iff_example =
    parse_authorization_header_iff (codes "bEARer abc") (codes "abc") scheme_bearer

abc-ne-nil : codes "abc" ≢ []
abc-ne-nil h = cc

dpop-is_valid : is_valid scheme_dpop ≡ true
unfolding is_valid
dpop-is_valid = refl

parse_authorization_header-format_authorization_header_example :
    parse_authorization_header (format_authorization_header (codes "abc") scheme_dpop)
    ≡ granted (codes "abc") scheme_dpop
parse_authorization_header-format_authorization_header_example =
    parse_authorization_header-format_authorization_header (codes "abc") scheme_dpop abc-ne-nil
      dpop-is_valid
