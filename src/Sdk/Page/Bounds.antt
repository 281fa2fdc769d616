-- ===== src/Sdk/Page/Bounds.antt =====
-- The range of a parsed page.
use spi_exata.Base.{ℕ, ◌≤◌, ◌≡◌}
use spi_exata.Base.Int.{pos}
use spi_exata.Sdk.Page.{Page}

-- A page number from 1, and 1 to 100 rows.
pub record IsPage (p : Page) : Type 0 where
  pub n : ℕ
  pub r : ℕ
  pub number : p.number ≡ pos n
  pub rows : p.rows ≡ pos r
  pub first : 1 ≤ n
  pub some_rows : 1 ≤ r
  pub few_rows : r ≤ 100
