-- ===== src/Paging.antt =====
-- internal/hades/server/paging.go: page sizes and the tokens of pages, with the decimal numbers
-- that strconv.Itoa writes and strconv.Atoi reads. An int is a ℕ here: a token that has a sign is
-- no number of rows, but for "+n", which Atoi reads as n.
pub mod Decimal
pub mod Cursor
mod Tests
use hades.Prelude.{Bytes, Option, [], if◌then◌else◌, ltb, none, some, suc, zero, ℕ, ◌+◌}
use hades.Prelude.Int.{negsuc, pos, ℤ}
use hades.Paging.Decimal.{atoi, itoa}

abbrev pub default_page_size : ℕ
default_page_size = 50

abbrev pub max_page_size : ℕ
max_page_size = 100

-- The clamp of page_size, an int32, which may be zero or negative.
unfoldable pub page_limit : ℤ → ℕ
page_limit (negsuc n) = default_page_size
page_limit (pos zero) = default_page_size
page_limit (pos (suc n)) = if ltb max_page_size (suc n) then max_page_size else suc n

abbrev pub or_first_page : Option ℕ → ℕ
or_first_page none = 0
or_first_page (some n) = n

unfoldable pub page_offset : Bytes → ℕ
page_offset token = or_first_page (atoi token)

-- Page(pageSize, pageToken)
unfoldable pub page : ℤ → Bytes → ℕ × ℕ
page size token = (page_limit size, page_offset token)

-- NextPageToken(returned, limit, offset)
unfoldable pub next_page_token : ℕ → ℕ → ℕ → Bytes
next_page_token returned limit offset = if ltb returned limit then [] else itoa (offset + limit)
