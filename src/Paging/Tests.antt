-- ===== src/Paging/Tests.antt =====
-- Pages of a small list.
use hades.Prelude.{List, [], arith, codes, refl, some, ℕ, ◌∷◌, ◌≡◌}
use hades.Prelude.Int.{negsuc, pos}
use hades.Paging.{next_page_token, page, page_limit, page_offset}
use hades.Paging.Decimal.{atoi, digits, itoa, read_digits}
use hades.Paging.Cursor.{follow, follow_visits}

page_tests :
    (page (pos 0) [] ≡ (50, 0))
    × (page (negsuc 3) (codes "20") ≡ (50, 20))
    × (page (pos 500) (codes "-1") ≡ (100, 0))
    × (page (pos 2) (codes "+7") ≡ (2, 7))
    × (next_page_token 2 2 10 ≡ codes "12")
    × (next_page_token 1 2 10 ≡ [])
unfolding page page_limit page_offset next_page_token itoa atoi digits read_digits
page_tests = (refl, refl, refl, refl, refl, refl)

abbrev five : List ℕ
five = 1 ∷ 2 ∷ 3 ∷ 4 ∷ 5 ∷ []

follow_visits_example : follow 6 (pos 2) [] five ≡ some five
follow_visits_example = follow_visits 6 (pos 2) five (omega arith) (omega arith)
