-- ===== src/Exec/Keeps/Effects.antt =====
-- Moves, strings and interrupts.
use topgun.Common.{ℕ, zero, suc, List, [], ◌∷◌, arith}
use topgun.Isa.{DecodedOp, OperandSize}
use topgun.Machine.{Machine}
use topgun.Machine.Board.{Board}
use topgun.Machine.Stable.{
  Stable, Stable-trans, Keeps, Ends, Keeps-bind, Keeps-gets, Keeps-if, Keeps-pure, Keeps-modify,
}
use topgun.Machine.Stable.Writes.{set_reg-Stable}
use topgun.Exec.Keeps.Data.{data_rules}
use topgun.Exec.Keeps.Stack.{i386_pop-Keeps}
use topgun.Exec.Keeps.Compute.{set_zf-Keeps}
use topgun.Exec.Moves.{
  do_sahf, do_lahf, do_mov, do_lea, do_xlat, load_seg_reg, do_mov_to_sr, do_pop_sr, do_cbw_cwde,
  do_cwd_cdq, do_xchg, do_inp,
}
use topgun.Exec.Strings.{
  string_update, do_stos, do_lods, do_cmps, scas_flags, do_scas, do_movs, do_string, rep_loop,
  do_rep_string,
}
use topgun.Exec.Interrupt.{
  put_char, take_key, getch, call_host, display_string, dos_services, video_services,
  keyboard_services, clock_services, interrupt_services, do_int,
}

pub do_sahf-Keeps : Keeps do_sahf
unfolding do_sahf
do_sahf-Keeps = search data_rules depth 14

pub do_lahf-Keeps : Keeps do_lahf
unfolding do_lahf
do_lahf-Keeps = search data_rules

module _ (b : Board) (dst src : DecodedOp) where
  pub do_mov-Keeps : Keeps (do_mov b dst src)
  unfolding do_mov
  do_mov-Keeps = search data_rules

  pub do_lea-Keeps : Keeps (do_lea b dst src)
  unfolding do_lea
  do_lea-Keeps = search data_rules

  pub load_seg_reg-Keeps : (selector : ℕ) → Keeps (load_seg_reg b dst selector)
  unfolding load_seg_reg
  load_seg_reg-Keeps selector = search data_rules depth 8

  pub do_mov_to_sr-Keeps : Keeps (do_mov_to_sr b dst src)
  unfolding do_mov_to_sr
  do_mov_to_sr-Keeps = search (data_rules, load_seg_reg-Keeps)

  pub do_cbw_cwde-Keeps : Keeps (do_cbw_cwde b dst src)
  unfolding do_cbw_cwde
  do_cbw_cwde-Keeps = search data_rules

  pub do_cwd_cdq-Keeps : Keeps (do_cwd_cdq b dst src)
  unfolding do_cwd_cdq
  do_cwd_cdq-Keeps = search data_rules

  pub do_xchg-Keeps : Keeps (do_xchg b dst src)
  unfolding do_xchg
  do_xchg-Keeps = search data_rules depth 8

  pub do_inp-Keeps : Keeps (do_inp b dst src)
  unfolding do_inp
  do_inp-Keeps = search data_rules

module _ (b : Board) where
  pub do_xlat-Keeps : Keeps (do_xlat b)
  unfolding do_xlat
  do_xlat-Keeps = search data_rules depth 8

  pub do_pop_sr-Keeps : (dst : DecodedOp) → Keeps (do_pop_sr b dst)
  unfolding do_pop_sr
  do_pop_sr-Keeps dst = search (data_rules, i386_pop-Keeps b, load_seg_reg-Keeps b dst dst)

string_update-Keeps : (r : ℕ) (sz : OperandSize) → Keeps (string_update r sz)
unfolding string_update
string_update-Keeps r sz = search data_rules depth 8

scas_flags-Keeps : (size v : ℕ) → Keeps (scas_flags size v)
unfolding scas_flags
scas_flags-Keeps size v = search (data_rules, set_zf-Keeps) depth 10

module _ (b : Board) (size : ℕ) where
  do_stos-Keeps : Keeps (do_stos b size)
  unfolding do_stos
  do_stos-Keeps = search (data_rules, string_update-Keeps) depth 10

  do_lods-Keeps : Keeps (do_lods b size)
  unfolding do_lods
  do_lods-Keeps = search (data_rules, string_update-Keeps) depth 10

  do_cmps-Keeps : Keeps (do_cmps b size)
  unfolding do_cmps
  do_cmps-Keeps = search (data_rules, string_update-Keeps, set_zf-Keeps) depth 14

  do_scas-Keeps : Keeps (do_scas b size)
  unfolding do_scas
  do_scas-Keeps = search (data_rules, string_update-Keeps, scas_flags-Keeps) depth 10

  do_movs-Keeps : Keeps (do_movs b size)
  unfolding do_movs
  do_movs-Keeps = search (data_rules, string_update-Keeps) depth 14

module _ (b : Board) (sub_type size : ℕ) where
  pub do_string-Keeps : Keeps (do_string b sub_type size)
  unfolding do_string
  do_string-Keeps =
      search (data_rules, do_stos-Keeps, do_lods-Keeps, do_cmps-Keeps, do_scas-Keeps, do_movs-Keeps)
        depth 10

module _ (b : Board) where
  rep_loop-Keeps : (fuel sub_type size cond : ℕ) → Keeps (rep_loop b fuel sub_type size cond)
  unfolding rep_loop
  rep_loop-Keeps zero sub_type size cond = search data_rules
  rep_loop-Keeps (suc fuel) sub_type size cond = Keeps-bind _ _ (Keeps-gets _) λ done.
      Keeps-if done _ _ (Keeps-pure tt) (
        Keeps-bind _ _ (do_string-Keeps b sub_type size) λ _.
          Keeps-bind _ _ (Keeps-modify _ (λ m. set_reg-Stable _ _ m)) λ _.
            Keeps-bind _ _ (Keeps-gets _) λ breaks.
              Keeps-if breaks _ _ (Keeps-pure tt) (rep_loop-Keeps fuel sub_type size cond))

  pub do_rep_string-Keeps : (sub_type size cond : ℕ) → Keeps (do_rep_string b sub_type size cond)
  unfolding do_rep_string
  do_rep_string-Keeps sub_type size cond = search (data_rules, rep_loop-Keeps)

put_char-Stable : (out : List ℕ) (m : Machine) → Stable m (record m { output = out })
put_char-Stable out m = record { same = ground arith; fits = λ w. ground (arith, w) }

put_char-Keeps : (c : ℕ) → Keeps (put_char c)
unfolding put_char
put_char-Keeps c = search (data_rules, put_char-Stable)

take_key-Ends : (keys : List ℕ) (m : Machine) → Ends (Stable m) (take_key keys m)
take_key-Ends [] m = tt
take_key-Ends (k ∷ ks) m = record { same = ground arith; fits = λ w. ground (arith, w) }

getch-Keeps : Keeps getch
unfolding getch
getch-Keeps = record { at = λ m. take_key-Ends m.input m }

module _ (b : Board) where
  mem-Stable : (mem' : ℕ → ℕ) (m : Machine) → Stable m (record m { mem = mem' })
  mem-Stable mem' m = record { same = ground arith; fits = λ w. ground (arith, w) }

  call_host-Stable : (m : Machine) → Stable m (call_host b m)
  unfolding call_host
  call_host-Stable m = Stable-trans (mem-Stable _ m) (set_reg-Stable _ _ _)

  display_string-Keeps : (left offset : ℕ) → Keeps (display_string b left offset)
  unfolding display_string
  display_string-Keeps zero offset = search data_rules
  display_string-Keeps (suc left) offset =
      search (data_rules, put_char-Keeps, display_string-Keeps left) depth 10

  dos_services-Keeps : (c : ℕ) → Keeps (dos_services b c)
  unfolding dos_services
  dos_services-Keeps c = search (data_rules, display_string-Keeps)

  video_services-Keeps : (c : ℕ) → Keeps (video_services b c)
  unfolding video_services
  video_services-Keeps c = search (data_rules, put_char-Keeps) depth 10

  keyboard_services-Keeps : (c : ℕ) → Keeps (keyboard_services b c)
  unfolding keyboard_services
  keyboard_services-Keeps c = search (data_rules, getch-Keeps) depth 10

  clock_services-Keeps : (c : ℕ) → Keeps (clock_services b c)
  unfolding clock_services
  clock_services-Keeps c = search data_rules

  interrupt_services-Keeps : (v c : ℕ) → Keeps (interrupt_services b v c)
  unfolding interrupt_services
  interrupt_services-Keeps v c =
      search
        (
          data_rules, call_host-Stable, dos_services-Keeps, video_services-Keeps,
          keyboard_services-Keeps, clock_services-Keeps,
        )
        depth 12

  pub do_int-Keeps : (src : DecodedOp) → Keeps (do_int b src)
  unfolding do_int
  do_int-Keeps src = search (data_rules, interrupt_services-Keeps) depth 8
