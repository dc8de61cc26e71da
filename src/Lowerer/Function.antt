-- ===== src/Lowerer/Function.antt =====
-- A whole function under src/backend/ana_lowerer.cpp: the prologue, the saves of the parameters, the
-- instructions of a block and its return, from the call to the RET.
use Prim.Native.Nat.pow
use anastasia.Base.{
  ℕ, zero, suc, ◌+◌, ◌-◌, ◌*◌, ◌%◌, ◌^◌, ◌≤◌, ◌<◌, ◌≡◌, refl, ap, true, some, [], ◌++◌, arith,
  if◌then◌else◌,
}
use anastasia.Base.Words.{sign_extend32, from_le}
use anastasia.RegAlloc.{AnaRegAlloc, RegLocation, RegLocKind, physical_reg, stack_spill}
use anastasia.RegAlloc.Layout.{Entity, place}
use anastasia.RegAlloc.Contract.{IsLayout}
use anastasia.Encoder.Prefix.{Code}
use anastasia.Encoder.Integer.{mov_reg_reg, sub_reg_imm32}
use anastasia.Encoder.System.{push_reg}
use anastasia.Encoder.RoundTrip.RegImm
use anastasia.Lowerer.Cpu.{Cpu, set_reg, push_word, load_bytes, load64, alu}
use anastasia.Lowerer.Runs.{
  Computes, Computes-append, Computes-mov_reg_reg, Computes-reg_imm, IsImm32,
}
use anastasia.Lowerer.Operands.{rsp, rbp}
use anastasia.Lowerer.Frame.{prologue, save_from, save_params}
use anastasia.Lowerer.Slots.{HoldsBut, FrameAt, fetch}
use anastasia.Lowerer.Access.{no_entity}
use anastasia.Lowerer.Entry.{
  entered, Entering, Entering-after, HoldsBut-congr, save_from-Entering, save_params_from-Entering,
}
use anastasia.Lowerer.Exit.{Computes-push_rbp}

-- Registers of 64 bits and memory of bytes.
pub record IsMachine (c : Cpu) : Type 0 where
  pub registers : (r : ℕ) → c.gpr r < 2 ^ 64
  pub cells : (x : ℕ) → c.memory x < 256

load_bytes-lt :
    (memory : ℕ → ℕ) (n x : ℕ)
    → ((y : ℕ) → memory y < 256)
    → from_le (load_bytes memory n x) < 256 ^ n
load_bytes-lt memory zero x h = omega arith
load_bytes-lt memory (suc n) x h =
    let e : 256 ^ suc n ≡ 256 ^ n * 256 = pow.suc 256 n in
    let rest = load_bytes-lt memory n (x + 1) h in let first = h (x % 2 ^ 64) in rw e (omega arith)

load64-lt : (memory : ℕ → ℕ) (x : ℕ) → ((y : ℕ) → memory y < 256) → load64 memory x < 2 ^ 64
load64-lt memory x h = load_bytes-lt memory 8 x h

fetch-lt : (l : RegLocation) (c : Cpu) → IsMachine c → fetch l c < 2 ^ 64
fetch-lt l c m = kinds l.kind
  where
    kinds : (k : RegLocKind) → fetch (record l { kind = k }) c < 2 ^ 64
    kinds physical_reg = m.registers l.phys_reg
    kinds stack_spill = load64-lt c.memory (c.gpr 5 - l.stack_disp) m.cells

-- The processor when the frame is set up: RBP saved, RBP and RSP at the ends of the frame.
abbrev pub framed : AnaRegAlloc → Cpu → Cpu
framed a c =
    let c1 = push_word (c.gpr 5) c in
    let c2 = set_reg 5 (c1.gpr 4) c1 in
    set_reg 4 ((c2.gpr 4 + (2 ^ 64 - a.stack_frame_size)) % 2 ^ 64) c2

-- Room on the stack for the saved RBP and the frame.
abbrev pub StackFits : AnaRegAlloc → Cpu → Type 0
StackFits a c = a.stack_frame_size + 8 ≤ c.gpr rsp

abbrev pub base_of : Cpu → ℕ
base_of c = (c.gpr rsp + (2 ^ 64 - 8)) % 2 ^ 64

pub prologue_framed :
    (a : AnaRegAlloc)
    → a.requires_frame ≡ true
    → prologue a
      ≡ push_reg rbp
        ++ (mov_reg_reg rbp rsp
            ++ (sub_reg_imm32 rsp (a.stack_frame_size % 2 ^ 32) ++ save_from a.saved_reg_count 0))
unfolding prologue
prologue_framed a e =
    ap
      (λ b.
        if b
        then push_reg rbp
          ++ (mov_reg_reg rbp rsp
              ++ (sub_reg_imm32 rsp (a.stack_frame_size % 2 ^ 32) ++ save_from a.saved_reg_count 0))
        else [])
      e

module _ (a : AnaRegAlloc) (laid : IsLayout a) (c : Cpu) (machine : IsMachine c)
    (room : StackFits a c) where
  pub fits : FrameAt a (base_of c)
  fits = let small = machine.registers rsp in (omega arith, omega arith)

  pub framed-IsMachine : IsMachine (framed a c)
  framed-IsMachine = record {
    registers = λ r. (let top = machine.registers rsp in ground (arith, machine.registers r));
    cells = λ x. ground (arith, machine.cells x);
  }

  sub_rsp :
      (c2 : Cpu)
      → Computes
          (sub_reg_imm32 rsp (a.stack_frame_size % 2 ^ 32))
          c2
          (set_reg 4 ((c2.gpr 4 + (2 ^ 64 - a.stack_frame_size)) % 2 ^ 64) c2)
  unfolding alu
  sub_rsp c2 =
      let small = laid.small in
      let size : sign_extend32 (a.stack_frame_size % 2 ^ 32) ≡ a.stack_frame_size = ground arith in
      Computes-reg_imm RegImm.sub_reg_imm32 4 (a.stack_frame_size % 2 ^ 32)
        ((c2.gpr 4 + (2 ^ 64 - a.stack_frame_size)) % 2 ^ 64) c2 IsImm32.sub (omega arith)
        (omega arith) (ap (λ z. some ((c2.gpr 4 + (2 ^ 64 - z)) % 2 ^ 64)) size)

  -- The places as the prologue finds them.
  abbrev pub found : Entity → ℕ
  found y = fetch (place a y) (framed a c)

  framed-HoldsBut : HoldsBut a (base_of c) (framed a c) found no_entity (framed a c)
  framed-HoldsBut = record {
    frame = refl;
    words = λ y. fetch-lt (place a y) (framed a c) framed-IsMachine;
    holds = λ y live kept. refl;
    outside = λ x h o. refl;
    quiet = λ r q. refl;
  }

  before : (g : ℕ → ℕ) (y : Entity) → found y ≡ entered g 0 0 found y
  before g (Entity.preserved i) = ground arith
  before g (Entity.local i) = refl
  before g (Entity.param i) = ground arith

  abbrev pub Entered : Code → Type 0
  Entered code =
      Entering a laid (base_of c) fits (framed a c) found (framed a c).gpr
        framed-IsMachine.registers a.saved_reg_count a.param_count c code

  pub prologue-Entered : a.requires_frame ≡ true → Entered (prologue a ++ save_params a)
  unfolding save_params
  prologue-Entered e =
      let g = (framed a c).gpr in
      let words = framed-IsMachine.registers in
      let c1 = push_word (c.gpr 5) c in
      let c2 = set_reg 5 (c1.gpr 4) c1 in
      let start =
        HoldsBut-congr a laid (base_of c) fits (framed a c) found g words found
          (entered g 0 0 found) (framed a c) (before g) framed-HoldsBut in
      let s =
        save_from-Entering a laid (base_of c) fits (framed a c) found g words a.saved_reg_count 0
          a.saved_reg_count (framed a c) (omega arith) refl start refl in
      rw (prologue_framed a e) (
        Entering-after a laid (base_of c) fits (framed a c) found g words a.saved_reg_count
          a.param_count
          (Computes-append (Computes-push_rbp c) (
            Computes-append (Computes-mov_reg_reg rbp rsp c1 (omega arith) (omega arith))
              (Computes-append (sub_rsp c2) s.computes)))
          (save_params_from-Entering a laid (base_of c) fits (framed a c) found g words
            a.param_count 0 a.param_count s.after (omega arith) refl s.holds s.regs))
