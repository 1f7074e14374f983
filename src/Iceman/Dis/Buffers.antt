-- ===== src/Iceman/Dis/Buffers.antt =====
-- What the disassembler writes fits in its buffers.
use topgun.Common.{
  ℕ, zero, suc, ◌+◌, ◌-◌, ◌/◌, ◌%◌, ◌^◌, ◌≤◌, ◌<◌, ◌≡◌, refl, List, [], ◌∷◌, ◌++◌, false, ◌&&◌,
  ◌==◌, ltb, u8, u16, u32, arith, length, Bool-cases, inl, inr,
}
use topgun.Common.Text.{Text, hex_digit, hex_digits, hex_wide, hex}
use topgun.Isa.{get_or}
use topgun.Decode.ModRm.{mod_of, reg_of, rm_of}
use topgun.Iceman.Dis.Names.{regs_32, rm16_strs}
use topgun.Iceman.Dis.Address.{
  Fields, byte_at, word_at, dword_at, pdisp8, pdisp16, pdisp32, sib_base_text, sib_index_text,
  dis_sib, base_text_32, displacement_text_32, rm32, base_text_16, displacement_text_16, rm16,
}

pub length-append : (xs ys : Text) → length (xs ++ ys) ≡ length xs + length ys
length-append [] ys = omega arith
length-append (x ∷ xs) ys = omega (arith, length-append xs ys)

length-hex_digits : (w n : ℕ) → length (hex_digits w n) ≡ w
unfolding hex_digits
length-hex_digits zero n = refl
length-hex_digits (suc w) n = omega (
  arith,
  length-append (hex_digits w (n / 16)) (hex_digit (n % 16) ∷ []),
  length-hex_digits w (n / 16),
)

below_8 : (w n : ℕ) → w ≤ 8 → n < 2 ^ 32 → ltb n (16 ^ w) ≡ false → suc w ≤ 8
below_8 w n h k large = elim (Bool-cases (w == 8)) [
  | inl e ↦
      let eight : w ≡ 8 = ground arith in
      let none_left : ltb n (16 ^ 8) ≡ false = rw eight at large in absurd (ground arith)
  | inr e ↦ ground arith
]

-- Eight digits are enough for 32 bits.
length-hex_wide : (more w n : ℕ) → w ≤ 8 → n < 2 ^ 32 → length (hex_wide more w n) ≤ 8
unfolding hex_wide
length-hex_wide zero w n h k = omega (arith, length-hex_digits w n)
length-hex_wide (suc more) w n h k = elim (Bool-cases (ltb n (16 ^ w))) [
  | inl small ↦ rw small (omega (arith, length-hex_digits w n))
  | inr large ↦ rw large (length-hex_wide more (suc w) n (below_8 w n h k large) k)
]

pub length-hex : (w n : ℕ) → w ≤ 8 → length (hex w n) ≤ 8
unfolding hex
length-hex w n h = length-hex_wide 8 w (u32 n) h (omega arith)

-- Every name of the table has at most `k` characters.
abbrev pub Short : ℕ → List Text → Type 0
Short k [] = Unit
Short k (name ∷ names) = (length name ≤ k) × Short k names

length-get_or : (k i : ℕ) (names : List Text) → Short k names → length (get_or names i []) ≤ k
length-get_or k i [] short = omega arith
length-get_or k zero (name ∷ names) short = short.0
length-get_or k (suc i) (name ∷ names) short = length-get_or k i names short.1

length-regs_32 : (i : ℕ) → length (get_or regs_32 i []) ≤ 3
length-regs_32 i = length-get_or 3 i regs_32 (omega arith)

length-rm16_strs : (i : ℕ) → length (get_or rm16_strs i []) ≤ 5
length-rm16_strs i = length-get_or 5 i rm16_strs (omega arith)

length-pdisp8 : (n : ℕ) → length (pdisp8 n) ≤ 11
unfolding pdisp8
length-pdisp8 n = elim (Bool-cases (ltb (u8 n) 0x80)) [
  | inl h ↦ rw h (omega (arith, length-hex 2 (u8 n)))
  | inr h ↦ rw h (omega (arith, length-hex 2 (2 ^ 8 - u8 n)))
]

length-pdisp16 : (n : ℕ) → length (pdisp16 n) ≤ 11
unfolding pdisp16
length-pdisp16 n = elim (Bool-cases (ltb (u16 n) 0x8000)) [
  | inl h ↦ rw h (omega (arith, length-hex 4 (u16 n)))
  | inr h ↦ rw h (omega (arith, length-hex 4 (2 ^ 16 - u16 n)))
]

length-pdisp32 : (n : ℕ) → length (pdisp32 n) ≤ 11
unfolding pdisp32
length-pdisp32 n = elim (Bool-cases (ltb (u32 n) 0x80000000)) [
  | inl h ↦ rw h (omega (arith, length-hex 8 (u32 n)))
  | inr h ↦ rw h (omega (arith, length-hex 8 (2 ^ 32 - u32 n)))
]

module _ (bytes : ℕ → ℕ) (address : ℕ) where
  length-sib_index : (sib : ℕ) → length (sib_index_text bytes sib) ≤ 6
  unfolding sib_index_text
  length-sib_index sib = elim (Bool-cases (reg_of sib == 4)) [
    | inl h ↦ rw h (omega arith)
    | inr h ↦ elim (Bool-cases (mod_of sib == 0)) [
      | inl k ↦ rw (h, k) (omega (arith, length-regs_32 (reg_of sib)))
      | inr k ↦ rw (h, k) (simp length-append (omega (arith, length-regs_32 (reg_of sib))))
    ]
  ]

  length-dis_sib : (mode : ℕ) → length (dis_sib bytes address mode).0 ≤ 9
  unfolding dis_sib sib_base_text
  length-dis_sib mode =
      let sib = byte_at bytes address in
      elim (Bool-cases (rm_of sib == 5 && mode == 0)) [
        | inl h ↦ rw h (omega (arith, length-sib_index sib))
        | inr h ↦
            rw h
              (simp length-append (omega (arith, length-sib_index sib, length-regs_32 (rm_of sib))))
      ]

  length-base_32 : (mode rm : ℕ) → length (base_text_32 bytes address mode rm).0 ≤ 10
  unfolding base_text_32
  length-base_32 mode rm = elim (Bool-cases (rm == 4)) [
    | inl h ↦ rw h (omega (arith, length-dis_sib mode))
    | inr h ↦ elim (Bool-cases (rm == 5 && mode == 0)) [
      | inl k ↦ rw (h, k) (omega (arith, length-hex 8 (dword_at bytes address)))
      | inr k ↦ rw (h, k) (omega (arith, length-regs_32 rm))
    ]
  ]

  length-displacement_32 : (mode : ℕ) → length (displacement_text_32 bytes address mode).0 ≤ 11
  unfolding displacement_text_32
  length-displacement_32 mode = elim (Bool-cases (mode == 1)) [
    | inl h ↦ rw h (length-pdisp8 _)
    | inr h ↦ elim (Bool-cases (mode == 2)) [
      | inl k ↦ rw (h, k) (length-pdisp32 _)
      | inr k ↦ rw (h, k) (omega arith)
    ]
  ]

  length-base_16 : (mode rm : ℕ) → length (base_text_16 bytes address mode rm).0 ≤ 10
  unfolding base_text_16
  length-base_16 mode rm = elim (Bool-cases (rm == 6 && mode == 0)) [
    | inl h ↦ rw h (omega (arith, length-hex 4 (word_at bytes address)))
    | inr h ↦ rw h (omega (arith, length-rm16_strs rm))
  ]

  length-displacement_16 : (mode : ℕ) → length (displacement_text_16 bytes address mode).0 ≤ 11
  unfolding displacement_text_16
  length-displacement_16 mode = elim (Bool-cases (mode == 1)) [
    | inl h ↦ rw h (length-pdisp8 _)
    | inr h ↦ elim (Bool-cases (mode == 2)) [
      | inl k ↦ rw (h, k) (length-pdisp16 _)
      | inr k ↦ rw (h, k) (omega arith)
    ]
  ]

module _ (bytes : ℕ → ℕ) (address : ℕ) (fields : Fields) where
  pub length-rm32 : length (rm32 bytes address fields).0 ≤ 21
  unfolding rm32
  length-rm32 = elim (Bool-cases (fields.mod_field == 3)) [
    | inl h ↦ rw h (omega arith)
    | inr h ↦ rw h (
        simp length-append (
          omega (
            arith,
            length-base_32 bytes address fields.mod_field fields.rm_field,
            length-displacement_32 bytes
                (address + (base_text_32 bytes address fields.mod_field fields.rm_field).1)
                fields.mod_field,
          )))
  ]

  pub length-rm16 : length (rm16 bytes address fields).0 ≤ 21
  unfolding rm16
  length-rm16 = elim (Bool-cases (fields.mod_field == 3)) [
    | inl h ↦ rw h (omega arith)
    | inr h ↦ rw h (
        simp length-append (
          omega (
            arith,
            length-base_16 bytes address fields.mod_field fields.rm_field,
            length-displacement_16 bytes address fields.mod_field,
          )))
  ]
