-- ===== src/Util/Pages.antt =====
-- util.rs: `floor_page_size` and `ceil_page_size` on 64-bit numbers, and as division.
use rd.Prelude.{
  ℕ, ◌+◌, ◌-◌, ◌*◌, ◌/◌, ◌%◌, ◌^◌, ◌<◌, ◌≡◌, Option, none, some, ltb, if◌then◌else◌, bit_and, arith,
  ap,
}
use rd.Prelude.Digits.{bit_and-page}

abbrev pub page_size : ℕ
page_size = 4096

-- `!(page_size() - 1)` is the complement in 64 bits.
unfoldable pub floor_page_size : ℕ → ℕ
floor_page_size sz = let page_mask = 2 ^ 64 - 1 - (page_size - 1) in bit_and sz page_mask

-- `none` when the addition overflows
unfoldable pub ceil_page_size : ℕ → Option ℕ
ceil_page_size size =
    if ltb (size + page_size) (2 ^ 64)
    then some (bit_and (size + page_size - 1) (2 ^ 64 - 1 - (page_size - 1)))
    else none

pub floor_page_size_lem : (a : ℕ) → a < 2 ^ 64 → floor_page_size a ≡ a / 4096 * 4096
unfolding floor_page_size
floor_page_size_lem a h = bit_and-page a h

pub ceil_page_size_lem :
    (a : ℕ) → a + 4096 < 2 ^ 64 → ceil_page_size a ≡ some ((a + 4095) / 4096 * 4096)
unfolding ceil_page_size
ceil_page_size_lem a h =
    let low : a + 4096 - 1 ≡ a + 4095 = omega arith in
    ground (
      arith,
      bit_and-page (a + 4095) (omega arith),
      ap (λ (t : ℕ). bit_and t (2 ^ 64 - 1 - (page_size - 1))) low,
    )

-- the address of a page, or a number of whole pages
abbrev pub IsPage : ℕ → Type 0
IsPage a = a % 4096 ≡ 0
