-- ===== src/User/Db/Paging.antt =====
-- The offset that Query computes from a page, on 64-bit integers.
use spi_exata.Base.{ℕ, ◌-◌, ◌*◌, ◌%◌, ◌^◌, ◌≤◌, ◌<◌, ◌≡◌, arith}
use spi_exata.Base.Int.{pos, negsuc, sub_one, ◌*ℤ◌}
use spi_exata.Sdk.Page.{Page}
use spi_exata.Sdk.Page.Bounds.{IsPage}
use spi_exata.User.Db.Store.{offset}

sub_one_pos : (n : ℕ) → 1 ≤ n → n < 2 ^ 63 → sub_one (pos n) ≡ pos (n - 1)
unfolding sub_one
sub_one_pos n h k = ground arith

mul_exact : (a b : ℕ) → a < 2 ^ 63 → b < 2 ^ 63 → a * b < 2 ^ 63 → pos a *ℤ pos b ≡ pos (a * b)
unfolding ◌*ℤ◌
mul_exact a b h k l =
    let e : a % 2 ^ 64 ≡ a = omega arith in
    let f : b % 2 ^ 64 ≡ b = omega arith in
    let g : (a * b) % 2 ^ 64 ≡ a * b = omega arith in rw (e, f, g) (ground arith)

mul_wrapped :
    (a b : ℕ)
    → a < 2 ^ 63
    → b < 2 ^ 63
    → 2 ^ 63 ≤ a * b
    → a * b < 2 ^ 64
    → pos a *ℤ pos b ≡ negsuc (2 ^ 64 - 1 - a * b)
unfolding ◌*ℤ◌
mul_wrapped a b h k l m =
    let e : a % 2 ^ 64 ≡ a = omega arith in
    let f : b % 2 ^ 64 ≡ b = omega arith in
    let g : (a * b) % 2 ^ 64 ≡ a * b = omega arith in rw (e, f, g) (ground arith)

module _ (p : Page) (v : IsPage p) where
  -- For a page number from 1 and 1 to 100 rows, both of type int: while (number - 1) * rows fits
  -- into an int, the offset is that product: pages of one size follow
  -- each other without gap or overlap.
  pub offset_exact : v.n < 2 ^ 63 → (v.n - 1) * v.r < 2 ^ 63 → offset p ≡ pos ((v.n - 1) * v.r)
  offset_exact h k =
      rw (v.number, v.rows, sub_one_pos v.n v.first h)
        (mul_exact (v.n - 1) v.r (omega arith) (omega (arith, v.few_rows)) k)

  -- For larger page numbers, up to a product below 2^64, it wraps around, and the offset is
  -- negative.
  pub offset_wrapped :
      v.n < 2 ^ 63
      → 2 ^ 63 ≤ (v.n - 1) * v.r
      → (v.n - 1) * v.r < 2 ^ 64
      → offset p ≡ negsuc (2 ^ 64 - 1 - (v.n - 1) * v.r)
  offset_wrapped h k l =
      rw (v.number, v.rows, sub_one_pos v.n v.first h)
        (mul_wrapped (v.n - 1) v.r (omega arith) (omega (arith, v.few_rows)) k l)
