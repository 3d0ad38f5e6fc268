-- ===== src/Util/Page.antt =====
-- util/page.go. Pages are Go ints.
use utils_go.Base.{◌≡◌, if◌then◌else◌, arith}
use utils_go.Base.Int.{ℤ, pos, leb_ℤ, ltb_ℤ, ◌≤ℤ◌}

unfoldable pub norm_page : ℤ → ℤ
norm_page page = if leb_ℤ page (pos 0) then pos 1 else page

unfoldable pub norm_page_size : ℤ → ℤ
norm_page_size page_size =
    let chosen = if leb_ℤ page_size (pos 0) then pos 10 else page_size in
    if ltb_ℤ (pos 100) chosen then pos 100 else chosen

-- Pages start at 1, a page has between 1 and 100 rows, and values in range stay.
pub norm_page-bounds :
    (page page_size : ℤ)
    → (pos 1 ≤ℤ norm_page page)
      × (pos 1 ≤ℤ norm_page_size page_size)
      × (norm_page_size page_size ≤ℤ pos 100)
      × (norm_page (norm_page page) ≡ norm_page page)
      × (norm_page_size (norm_page_size page_size) ≡ norm_page_size page_size)
unfolding norm_page norm_page_size
norm_page-bounds page page_size = ground arith
