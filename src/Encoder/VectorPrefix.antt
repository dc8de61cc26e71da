-- ===== src/Encoder/VectorPrefix.antt =====
-- The VEX and EVEX prefixes that src/backend/ana_encoder.cpp writes, read back.
use anastasia.Base.{
  ℕ, ◌+◌, ◌-◌, ◌*◌, ◌/◌, ◌%◌, ◌^◌, ◌<◌, ◌≡◌, refl, true, false, List, ◌∷◌, ◌++◌, leb, ◌==◌, arith,
  if◌then◌else◌,
}
use anastasia.Base.Words.{fits_int8}
use anastasia.Encoder.Prefix.{Code, byte, bytes, emit_modrm, mem_operand, emit_vex3, emit_evex}
use anastasia.Encoder.Decode.{decode_modrm}
use anastasia.Encoder.DecodeVector.{vector_op, finish, unit, decode_vector}
use anastasia.Encoder.Operands.{rex_of}

-- The first byte behind the VEX prefix, and the middle fields of the second.
abbrev vex_p0 : ℕ → ℕ → ℕ → ℕ
vex_p0 map reg rm = (1 - reg / 8 % 2) * 128 + 64 + (1 - rm / 8 % 2) * 32 + map

abbrev vex_p1 : ℕ → ℕ → ℕ
vex_p1 pp second = 0 + (15 - second % 16) * 8 + 4 + pp % 4

p0_r : (t reg rm : ℕ) → t < 32 → reg < 16 → (vex_p0 t reg rm / 128 % 2 == 0) ≡ leb 8 reg
p0_r t reg rm h k = ground arith

p0_x : (t reg rm : ℕ) → t < 32 → (vex_p0 t reg rm / 64 % 2 == 0) ≡ false
p0_x t reg rm h = ground arith

p0_b : (t reg rm : ℕ) → t < 32 → rm < 16 → (vex_p0 t reg rm / 32 % 2 == 0) ≡ leb 8 rm
p0_b t reg rm h k = ground arith

p0_map : (t reg rm : ℕ) → t < 32 → vex_p0 t reg rm % 32 ≡ t
p0_map t reg rm h = omega arith

p0_low : (t reg rm : ℕ) → t < 32 → vex_p0 t reg rm % 4 ≡ t % 4
p0_low t reg rm h = omega arith

p0_fixed : (t reg rm : ℕ) → t < 4 → (vex_p0 (16 + t) reg rm / 4 % 8 == 4) ≡ true
p0_fixed t reg rm h = ground arith

p1_length : (pp second : ℕ) → (vex_p1 pp second / 4 % 2 == 1) ≡ true
p1_length pp second = ground arith

p1_second : (pp second : ℕ) → second < 16 → 15 - vex_p1 pp second / 8 % 16 ≡ second
p1_second pp second h = omega arith

p1_pp : (pp second : ℕ) → pp < 4 → vex_p1 pp second % 4 ≡ pp
p1_pp pp second h = omega arith

pub decode-emit_vex3 :
    (map pp second reg rm o : ℕ) (tail : Code) (rest : List ℕ)
    → map < 4
    → pp < 4
    → second < 16
    → reg < 16
    → rm < 16
    → decode_vector
        (bytes (emit_vex3 map pp false second true (reg / 8) 0 (rm / 8) ++ byte o ∷ tail) ++ rest)
      ≡ finish 32 second 1
          (vector_op map pp o)
          (decode_modrm (rex_of false reg rm) (bytes tail ++ rest))
unfolding decode_vector emit_vex3
decode-emit_vex3 map pp second reg rm o tail rest a b c d e =
    let low : map % 32 ≡ map = omega arith in
    rw
      (
        low,
        p0_map map reg rm (omega arith),
        p0_r map reg rm (omega arith) d,
        p0_x map reg rm (omega arith),
        p0_b map reg rm (omega arith) e,
        p1_length pp second,
        p1_second pp second c,
        p1_pp pp second b,
      )
      refl

evex_p0 :
    (t reg rm : ℕ)
    → (1 - reg / 8 % 2) * 128 + 64 + (1 - rm / 8 % 2) * 32 + 16 + t ≡ vex_p0 (16 + t) reg rm
evex_p0 t reg rm = omega arith

pub decode-emit_evex :
    (map pp second reg rm o : ℕ) (tail : Code) (rest : List ℕ)
    → map < 4
    → pp < 4
    → second < 16
    → reg < 16
    → rm < 16
    → decode_vector
        (bytes (emit_evex map pp false second 2 (reg / 8) 0 (rm / 8) 0 ++ byte o ∷ tail) ++ rest)
      ≡ finish 64 second
          (unit 64 (bytes tail ++ rest))
          (vector_op map pp o)
          (decode_modrm (rex_of false reg rm) (bytes tail ++ rest))
unfolding decode_vector emit_evex
decode-emit_evex map pp second reg rm o tail rest a b c d e =
    let low : map % 4 ≡ map = omega arith in
    let lower : (16 + map) % 4 ≡ map = omega arith in
    rw
      (
        low,
        evex_p0 map reg rm,
        p0_fixed map reg rm a,
        p0_low (16 + map) reg rm (omega arith),
        lower,
        p0_r (16 + map) reg rm (omega arith) d,
        p0_x (16 + map) reg rm (omega arith),
        p0_b (16 + map) reg rm (omega arith) e,
        p1_length pp second,
        p1_second pp second c,
        p1_pp pp second b,
      )
      refl

pub unit-mem_operand :
    (reg base disp : ℕ) (rest : List ℕ)
    → reg < 16
    → base < 16
    → disp < 2 ^ 32
    → disp * unit 64 (bytes (mem_operand reg base disp) ++ rest) % 2 ^ 32
      ≡ (if fits_int8 disp then disp * 64 % 2 ^ 32 else disp)
unfolding mem_operand emit_modrm
unit-mem_operand reg base disp rest h k l = ground arith
