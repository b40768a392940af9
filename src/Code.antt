-- ===== src/Code.antt =====
-- src/code.c and src/code.h: the emission of instructions. The globals `tm_code`, `tm_count`, `emit_loc`,
-- `high_emit_loc` and `trace_code` are the fields of `Emitter`; `tm_code` has the instructions in the
-- order in which they were pushed. Locations and arguments are 32-bit words. The
-- ASSERT of `emit_backup` is empty where DEBUG is not defined.
pub mod Bounds
pub mod Jump
use milac.Prelude.{
  ℕ, ◌+◌, List, [], ◌∷◌, ◌++◌, Bool, if◌then◌else◌, Bytes, ltb, add32, sub32, signed_lt,
}

pub data Inop : Type 0 where
  inop_halt inop_in inop_out inop_add inop_inc inop_dec inop_shr inop_shl inop_sub inop_mul : Inop
  inop_div inop_ld inop_st inop_lda inop_ldc inop_jlt inop_jle inop_jgt inop_jge inop_jeq inop_jne :
      Inop

pub data TminsType : Type 0 where
  ro rm rc : TminsType

-- tmins_t
pub record Tmins : Type 0 where
  pub type : TminsType
  pub line : ℕ
  pub op : Inop
  pub r1 : ℕ
  pub r2 : ℕ
  pub r3 : ℕ
  pub comment : Bytes

pub record Emitter : Type 0 where
  pub tm_code : List Tmins
  pub tm_count : ℕ
  pub emit_loc : ℕ
  pub high_emit_loc : ℕ
  pub trace_code : Bool

-- the registers with a purpose
abbrev pub gp : ℕ
gp = 6

abbrev pub pc : ℕ
pc = 7

-- `if (high_emit_loc < emit_loc) high_emit_loc = emit_loc`
abbrev pub raise : Emitter → Emitter
raise e = record e {
  high_emit_loc = if signed_lt e.high_emit_loc e.emit_loc then e.emit_loc else e.high_emit_loc;
}

-- an instruction at the current location, which moves on
abbrev pub place : TminsType → Inop → ℕ → ℕ → ℕ → Bytes → Emitter → Emitter
place type op r s t c e = raise (record e {
  tm_code =
      e.tm_code
      ++ (record { type = type; line = e.emit_loc; op = op; r1 = r; r2 = s; r3 = t; comment = c }
          ∷ []);
  tm_count = add32 e.tm_count 1;
  emit_loc = add32 e.emit_loc 1;
})

unfoldable pub emit_comment : Bytes → Emitter → Emitter
emit_comment c e =
    if e.trace_code
    then record e {
      tm_code =
          e.tm_code
          ++ (record {
            type = rc;
            line = e.emit_loc;
            op = inop_halt;
            r1 = 0;
            r2 = 0;
            r3 = 0;
            comment = c;
          }
              ∷ []);
    }
    else e

unfoldable pub emit_ro : Inop → ℕ → ℕ → ℕ → Bytes → Emitter → Emitter
emit_ro op r s t c e = place ro op r s t c e

unfoldable pub emit_rm : Inop → ℕ → ℕ → ℕ → Bytes → Emitter → Emitter
emit_rm op r d s c e = place rm op r d s c e

-- the location before the skip, and the state after it
unfoldable pub emit_skip : ℕ → Emitter → ℕ × Emitter
emit_skip how_many e = (e.emit_loc, raise (record e { emit_loc = add32 e.emit_loc how_many }))

unfoldable pub emit_backup : ℕ → Emitter → Emitter
emit_backup loc e = record e { emit_loc = loc }

unfoldable pub emit_restore : Emitter → Emitter
emit_restore e = record e { emit_loc = e.high_emit_loc }

unfoldable pub emit_rm_abs : Inop → ℕ → ℕ → Bytes → Emitter → Emitter
emit_rm_abs op r a c e = place rm op r (sub32 a (add32 e.emit_loc 1)) pc c e
