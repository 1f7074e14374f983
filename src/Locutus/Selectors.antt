-- ===== src/Locutus/Selectors.antt =====
-- The conversions between flat and 16:16 addresses of `locutus/os2thunk.c`.
use topgun.Common.{
  ℕ, ◌+◌, ◌*◌, ◌/◌, ◌%◌, ◌^◌, ◌<◌, ◌≡◌, ◌↔◌, refl, bit_or, u16, ◌==◌, all_below-at, arith,
}

-- `(ptr >> 3) >> 16` in a `uint16_t`, and the low word.
unfoldable pub dos_flat_to_sel : ℕ → ℕ
dos_flat_to_sel ptr =
    let selector = u16 (ptr / 2 ^ 3 / 2 ^ 16) in
    let offset = ptr % 2 ^ 16 in selector * 2 ^ 16 + offset

unfoldable pub dos_sel_to_flat : ℕ → ℕ
dos_sel_to_flat farptr =
    let selector = u16 (farptr / 2 ^ 16) in
    let offset = farptr % 2 ^ 16 in bit_or (selector % 2 ^ 13 / 2 ^ 3) 7 * 2 ^ 16 + offset

seven : (n : ℕ) → n < 1024 → bit_or n 7 ≡ n / 8 * 8 + 7
seven n small = ground (arith, all_below-at 1024 (λ i. bit_or i 7 == i / 8 * 8 + 7) refl n small)

-- The two conversions undo one another at the addresses of the eighth 64 KB block, and nowhere else.
pub sel_to_flat-flat_to_sel :
    (ptr : ℕ) → ptr < 2 ^ 32 → (dos_sel_to_flat (dos_flat_to_sel ptr) ≡ ptr) ↔ (ptr / 2 ^ 16 ≡ 7)
unfolding dos_flat_to_sel dos_sel_to_flat
sel_to_flat-flat_to_sel ptr fits =
    let field : u16 ((u16 (ptr / 2 ^ 3 / 2 ^ 16) * 2 ^ 16 + ptr % 2 ^ 16) / 2 ^ 16) % 2 ^ 13 / 2 ^ 3
        ≡ ptr / 2 ^ 22 =
      omega arith in
    rw field (
      rw (seven (ptr / 2 ^ 22) (omega (arith, fits)))
        ((λ e. omega (arith, e)), (λ e. omega (arith, e))))
