-- ===== src/Iceman/Dis/Lengths.antt =====
-- The disassembler and the processor agree on how long an address and an operand are.
use topgun.Common.{ℕ, ◌+◌, ◌≡◌, ◌&&◌, ◌==◌, if◌then◌else◌, ltb, arith, Bool-cases, inl, inr}
use topgun.Machine.{Machine}
use topgun.Machine.Outcome.{pure, gets, ◌>>=◌}
use topgun.Machine.Board.{Board}
use topgun.Decode.ModRm.{
  mod_of, reg_of, rm_of, scaled_index, sib_base, decode_sib, base_32, displacement_32, decode_rm_32,
  base_16, displacement_16, decode_rm_16,
}
use topgun.Decode.Advance.{
  From, Moved, From-bind, From-pure, From-gets, From-undefined, From-if, code_byte, fetch_8-From,
  fetch_16-From, fetch_32-From,
}
use topgun.Iceman.Dis.Address.{
  fields_of, byte_at, dis_sib, base_text_32, displacement_text_32, rm32, base_text_16,
  displacement_text_16, rm16,
}

sib_size :
    (bytes : ℕ → ℕ) (address mode : ℕ)
    → (dis_sib bytes address mode).1
      ≡ 1 + (if rm_of (byte_at bytes address) == 5 && mode == 0 then 4 else 0)
unfolding dis_sib
sib_size bytes address mode = elim (Bool-cases (rm_of (byte_at bytes address) == 5 && mode == 0)) [
  | inl h ↦ rw h
  | inr h ↦ rw h
]

gets-From : {A : Type 0} (m : Machine) (f : Machine → A) → From m (Moved 0 m) (gets f)
gets-From m f = From-gets _ f (omega arith)

module _ (b : Board) where
  -- The index reads no code.
  scaled_index-From : (sib : ℕ) (m : Machine) → From m (Moved 0 m) (scaled_index b sib)
  unfolding scaled_index
  scaled_index-From sib m = elim (Bool-cases (reg_of sib == 4)) [
    | inl h ↦ rw h (From-pure _ _ (omega arith))
    | inr h ↦ elim (Bool-cases (ltb sib 0x80)) [
      | inl k ↦ rw (h, k) (From-gets _ _ (omega arith))
      | inr k ↦ rw (h, k) (From-undefined _)
    ]
  ]

  -- Code that only looks at the machine, and goes on with an answer.
  looks-From :
      {A B : Type 0} (m : Machine) (f : Machine → A) (g : A → B)
      → From m (Moved 0 m) (gets f >>= λ x. pure (g x))
  looks-From m f g =
      From-bind {P = Moved 0 m} _ {m = m} _ _ (gets-From m f) (λ v t p. From-pure _ _ p)

  sib_base-From :
      (modrm sib : ℕ) (m : Machine)
      → From m
          (Moved (if rm_of sib == 5 && mod_of modrm == 0 then 4 else 0) m)
          (sib_base b modrm sib)
  unfolding sib_base
  sib_base-From modrm sib m = elim (Bool-cases (rm_of sib == 5 && mod_of modrm == 0)) [
    | inl h ↦ rw h (From-bind _ _ _ (fetch_32-From b m) (λ v t p. From-pure _ _ p))
    | inr h ↦ rw h (looks-From m _ _)
  ]

module _ (b : Board) (bytes : ℕ → ℕ) where
  displacement_32-From :
      (address modrm : ℕ) (m : Machine)
      → From m
          (Moved (displacement_text_32 bytes address (mod_of modrm)).1 m)
          (displacement_32 b modrm)
  unfolding displacement_32 displacement_text_32
  displacement_32-From address modrm m = elim (Bool-cases (mod_of modrm == 1)) [
    | inl h ↦ rw h (From-bind _ _ _ (fetch_8-From b m) (λ v t p. From-pure _ _ (p.1)))
    | inr h ↦ elim (Bool-cases (mod_of modrm == 2)) [
      | inl k ↦ rw (h, k) (fetch_32-From b m)
      | inr k ↦ rw (h, k) (From-pure _ _ (omega arith))
    ]
  ]

  displacement_16-From :
      (address modrm : ℕ) (m : Machine)
      → From m
          (Moved (displacement_text_16 bytes address (mod_of modrm)).1 m)
          (displacement_16 b modrm)
  unfolding displacement_16 displacement_text_16
  displacement_16-From address modrm m = elim (Bool-cases (mod_of modrm == 1)) [
    | inl h ↦ rw h (From-bind _ _ _ (fetch_8-From b m) (λ v t p. From-pure _ _ (p.1)))
    | inr h ↦ elim (Bool-cases (mod_of modrm == 2)) [
      | inl k ↦ rw (h, k) (From-bind _ _ _ (fetch_16-From b m) (λ v t p. From-pure _ _ p))
      | inr k ↦ rw (h, k) (From-pure _ _ (omega arith))
    ]
  ]

module _ (b : Board) (bytes : ℕ → ℕ) (address : ℕ) where
  decode_sib-From :
      (modrm : ℕ) (m : Machine)
      → byte_at bytes address ≡ code_byte b m
      → From m (Moved (dis_sib bytes address (mod_of modrm)).1 m) (decode_sib b modrm)
  unfolding decode_sib
  decode_sib-From modrm m same =
      rw (sib_size bytes address (mod_of modrm), same)
        (From-bind _ _ _ (fetch_8-From b m) (λ sib t p.
          From-bind _ _ _ (sib_base-From b modrm sib t) (λ base u q.
            From-bind _ _ _ (scaled_index-From b sib u)
              (λ index v r. From-pure _ _ (rw (← p.0) (omega (arith, p.1, q, r)))))))

  base_32-From :
      (modrm : ℕ) (m : Machine)
      → byte_at bytes address ≡ code_byte b m
      → From m
          (Moved (base_text_32 bytes address (mod_of modrm) (rm_of modrm)).1 m)
          (base_32 b modrm)
  unfolding base_32 base_text_32
  base_32-From modrm m same = elim (Bool-cases (rm_of modrm == 4)) [
    | inl h ↦ rw h (decode_sib-From modrm m same)
    | inr h ↦ elim (Bool-cases (rm_of modrm == 5)) [
      | inl k ↦ elim (Bool-cases (mod_of modrm == 0)) [
        | inl l ↦ rw (h, k, l) (From-bind _ _ _ (fetch_32-From b m) (λ v t p. From-pure _ _ p))
        | inr l ↦ rw (h, k, l) (looks-From b m _ _)
      ]
      | inr k ↦ rw (h, k) (looks-From b m _ _)
    ]
  ]

  decode_rm_32-rm32 :
      (modrm : ℕ) (m : Machine)
      → byte_at bytes address ≡ code_byte b m
      → From m (Moved (rm32 bytes address (fields_of modrm)).1 m) (decode_rm_32 b modrm)
  unfolding decode_rm_32 rm32 fields_of
  decode_rm_32-rm32 modrm m same = elim (Bool-cases (mod_of modrm == 3)) [
    | inl h ↦ rw h (From-pure _ _ (omega arith))
    | inr h ↦ rw h (
        From-bind _ _ _ (base_32-From modrm m same) (λ base t p.
          From-bind _ _ _
            (displacement_32-From b bytes
              (address + (base_text_32 bytes address (mod_of modrm) (rm_of modrm)).1) modrm t)
            (λ disp u q. From-pure _ _ (omega (arith, p, q)))))
  ]

  -- A sum of two registers, or one, reads no code.
  base_16-From :
      (modrm : ℕ) (m : Machine)
      → From m
          (Moved (base_text_16 bytes address (mod_of modrm) (rm_of modrm)).1 m)
          (base_16 b modrm)
  unfolding base_16 base_text_16
  base_16-From modrm m = elim (Bool-cases (rm_of modrm == 6)) [
    | inl h ↦
        let six : rm_of modrm ≡ 6 = ground arith in
        elim (Bool-cases (mod_of modrm == 0)) [
          | inl k ↦ rw (six, k) (From-bind _ _ _ (fetch_16-From b m) (λ v t p. From-pure _ _ p))
          | inr k ↦ rw (six, k) (gets-From m _)
        ]
    | inr h ↦ rw h (search (From-if, gets-From) depth 14)
  ]

  decode_rm_16-rm16 :
      (modrm : ℕ) (m : Machine)
      → From m (Moved (rm16 bytes address (fields_of modrm)).1 m) (decode_rm_16 b modrm)
  unfolding decode_rm_16 rm16 fields_of
  decode_rm_16-rm16 modrm m = elim (Bool-cases (mod_of modrm == 3)) [
    | inl h ↦ rw h (From-pure _ _ (omega arith))
    | inr h ↦ rw h (
        From-bind _ _ _ (base_16-From modrm m) (λ base t p.
          From-bind _ _ _ (displacement_16-From b bytes address modrm t)
            (λ disp u q. From-pure _ _ (omega (arith, p, q)))))
  ]

-- The disassembler and the processor take the same number of bytes for a memory operand's address:
-- where both see the same byte after the ModR/M byte, `decode_rm_32` leaves EIP as many bytes further
-- as `rm32` reports, and `decode_rm_16` as `rm16` does, or they stop at something undefined (a read
-- outside the block, or an index that is scaled by a negative shift); they come to nothing else.
pub decode_rm-lengths :
    (b : Board) (bytes : ℕ → ℕ) (address modrm : ℕ) (m : Machine)
    → byte_at bytes address ≡ code_byte b m
    → (From m (Moved (rm32 bytes address (fields_of modrm)).1 m) (decode_rm_32 b modrm))
      × (From m (Moved (rm16 bytes address (fields_of modrm)).1 m) (decode_rm_16 b modrm))
decode_rm-lengths b bytes address modrm m same =
    (decode_rm_32-rm32 b bytes address modrm m same, decode_rm_16-rm16 b bytes address modrm m)
