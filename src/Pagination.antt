-- ===== src/Pagination.antt =====
-- libs/go/src/pagination/pagination.go. The numbers are 64-bit words; an error is its format and the
-- number in it.
mod Walk
mod Pages
mod Tests
use microservices_base.Prelude.{
  ℕ, zero, suc, ◌/◌, Bool, true, false, Option, none, some, String, List, length, ◌>>=◌,
  if◌then◌else◌,
}
use microservices_base.Prelude.Int.{ℤ, pos, negsuc, ltb_ℤ, leb_ℤ, ◌-ℤ◌, quot_ℕ}
use microservices_base.Prelude.Word.{wrap64, add64, sub64}

pub record Page : Type 0 where
  pub offset : ℤ
  pub limit : ℤ

abbrev pub default_limit : ℤ
default_limit = pos 20

abbrev pub max_limit : ℤ
max_limit = pos 100

pub data PageError : Type 0 where
  offset_negative limit_not_positive limit_exceeds : ℤ → PageError

pub data Checked : Type 0 where
  page_of : Page → Checked
  refused : PageError → Checked

unfoldable pub new_page : ℤ → ℤ → Checked
new_page offset limit =
    if ltb_ℤ offset (pos 0)
    then refused (offset_negative offset)
    else if leb_ℤ limit (pos 0)
    then refused (limit_not_positive limit)
    else if ltb_ℤ max_limit limit
    then refused (limit_exceeds limit)
    else page_of (record { offset = offset; limit = limit })

abbrev pub default_page : Page
default_page = record { offset = pos 0; limit = default_limit }

unfoldable pub next : Page → Page
next p = record p { offset = add64 p.offset p.limit }

unfoldable pub previous : Page → Page
previous p =
    let new_offset = sub64 p.offset p.limit in
    record p { offset = if ltb_ℤ new_offset (pos 0) then pos 0 else new_offset }

pub record PageResult {ℓ} (T : Type ℓ) : Type ℓ where
  pub items : List T
  pub total : ℤ
  pub has_more : Bool
  pub next_cursor : String
  pub prev_cursor : String

module _ {ℓ} {T : Type ℓ} where
  unfoldable pub new_page_result : List T → ℤ → Page → PageResult T
  new_page_result items total page = record {
    items = items;
    total = total;
    has_more = ltb_ℤ (add64 page.offset (pos (length items))) total;
    next_cursor = "";
    prev_cursor = "";
  }

  unfoldable pub with_cursors : PageResult T → String → String → PageResult T
  with_cursors r next_cursor prev_cursor = record r {
    next_cursor = next_cursor;
    prev_cursor = prev_cursor;
  }

pub record PageInfo : Type 0 where
  pub page : ℤ
  pub per_page : ℤ
  pub total_pages : ℤ
  pub total_items : ℤ

-- `a / b` on words, truncated towards zero; a division by zero panics.
unfoldable pub div64 : ℤ → ℤ → Option ℤ
div64 a (pos zero) = none
div64 a (pos (suc b)) = some (wrap64 (quot_ℕ a (suc b)))
div64 a (negsuc b) = some (wrap64 (pos 0 -ℤ quot_ℕ a (suc b)))

unfoldable pub new_page_info : ℤ → ℤ → ℤ → Option PageInfo
new_page_info offset limit total = do
  before ← div64 offset limit
  total_pages ← div64 (sub64 (add64 total limit) (pos 1)) limit
  some (record {
    page = add64 before (pos 1);
    per_page = limit;
    total_pages = total_pages;
    total_items = total;
  })
