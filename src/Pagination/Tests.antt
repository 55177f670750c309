-- ===== src/Pagination/Tests.antt =====
-- Runs of pagination.go.
use native.Mathlib.Omega.{arith}
use microservices_base.Prelude.{ℕ, ◌≡◌, refl, some, [], ◌∷◌}
use microservices_base.Prelude.Int.{pos}
use microservices_base.Prelude.Word.{wrap64}
use microservices_base.Pagination.{Page, PageInfo, page_of, new_page, next, previous, new_page_info}
use microservices_base.Pagination.Walk.{read_all}
use microservices_base.Pagination.Pages.{at_least_one, read_all-new_page}

abbrev two_each : Page
two_each = record { offset = pos 0; limit = pos 2 }

granted : new_page (pos 0) (pos 2) ≡ page_of two_each
unfolding new_page
granted = refl

previous_run : (previous (next two_each)).offset ≡ pos 0
unfolding previous next wrap64
previous_run = refl

read_all-new_page_example :
    (info : PageInfo) × (pages : ℕ) × (new_page_info (pos 0) (pos 2) (pos 3) ≡ some info)
    × (info.total_pages ≡ pos pages)
    × (read_all {T = ℕ} 4 (6 ∷ 4 ∷ 9 ∷ []) two_each ≡ some (6 ∷ 4 ∷ 9 ∷ [], at_least_one pages))
read_all-new_page_example =
    read_all-new_page (pos 2) two_each (6 ∷ 4 ∷ 9 ∷ []) granted (omega arith)
