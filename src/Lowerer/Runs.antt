-- ===== src/Lowerer/Runs.antt =====
-- What the code of single encoder methods does on the processor, and of one behind another.
use anastasia.Base.{
  ℕ, zero, suc, ◌+◌, ◌^◌, ◌<◌, ◌≡◌, refl, sym, ap, ◌∙◌, Option, none, some, List, [], ◌∷◌, ◌++◌,
  true, append_assoc, arith, fun_ext, ◌==◌, if◌then◌else◌, Bool-cases, inl, inr, ==_iff,
}
use anastasia.Base.Words.{sign_extend32, le_bytes}
use anastasia.Encoder.Prefix.{Code, byte, dword, qword, bytes}
use anastasia.Encoder.Disassemble.{Insn, decode}
use anastasia.Encoder.Integer.{mov_reg_reg, mov_reg_imm64, mov_reg_mem, mov_mem_reg}
use anastasia.Encoder.RoundTrip.RegReg
use anastasia.Encoder.RoundTrip.RegImm
use anastasia.Encoder.RoundTrip.Memory
use anastasia.Lowerer.Cpu.{
  Cpu, set_reg, load64, store64, address, alu, execute, with_value, go_on, step, run,
}

-- The code takes the processor from `c` to `c'`, whatever bytes stand behind it, and control
-- then reaches those bytes.
pub record Computes (code : Code) (c : Cpu) (c' : Cpu) : Type 0 where
  pub steps : ℕ
  pub runs : (rest : List ℕ) → run steps (bytes code ++ rest, c) ≡ some (rest, c')

pub bytes_append :
    (x y : Code) (rest : List ℕ) → bytes (x ++ y) ++ rest ≡ bytes x ++ (bytes y ++ rest)
bytes_append [] y rest = refl
bytes_append (byte b ∷ x) y rest = ap (◌∷◌ b) (bytes_append x y rest)
bytes_append (dword d ∷ x) y rest =
    append_assoc (le_bytes 4 d) (bytes (x ++ y)) rest
    ∙ ap (◌++◌ (le_bytes 4 d)) (bytes_append x y rest)
    ∙ sym (append_assoc (le_bytes 4 d) (bytes x) (bytes y ++ rest))
bytes_append (qword q ∷ x) y rest =
    append_assoc (le_bytes 8 q) (bytes (x ++ y)) rest
    ∙ ap (◌++◌ (le_bytes 8 q)) (bytes_append x y rest)
    ∙ sym (append_assoc (le_bytes 8 q) (bytes x) (bytes y ++ rest))

go_on_assoc :
    (o : Option (List ℕ × Cpu)) (f g : List ℕ × Cpu → Option (List ℕ × Cpu))
    → go_on o (λ s. go_on (f s) g) ≡ go_on (go_on o f) g
go_on_assoc none f g = refl
go_on_assoc (some s) f g = refl

pub run-add : (n m : ℕ) (s : List ℕ × Cpu) → run (n + m) s ≡ go_on (run n s) (run m)
unfolding run
run-add zero m s = ap (λ k. run k s) (omega arith)
run-add (suc n) m s =
    let e : suc n + m ≡ suc (n + m) = omega arith in
    rw e (ap (go_on (step s)) (fun_ext (run-add n m)) ∙ go_on_assoc (step s) (run n) (run m))

pub Computes-nil : (c : Cpu) → Computes [] c c
unfolding run
Computes-nil c = record { steps = 0; runs = λ rest. refl }

pub Computes-append :
    {x y : Code} {a b c : Cpu} → Computes x a b → Computes y b c → Computes (x ++ y) a c
Computes-append {x = x} {y = y} p q = record {
  steps = p.steps + q.steps;
  runs = λ rest.
      rw (bytes_append x y rest, run-add p.steps q.steps, p.runs (bytes y ++ rest)) (q.runs rest);
}

-- One instruction.
pub Computes-insn :
    {code : Code} {c c' : Cpu} (i : Insn)
    → ((rest : List ℕ) → decode (bytes code ++ rest) ≡ some (i, rest))
    → execute i c ≡ some c'
    → Computes code c c'
unfolding run step
Computes-insn i d e = record { steps = 1; runs = λ rest. rw (d rest, e) refl }

pub set_reg_same : (r : ℕ) (c : Cpu) → set_reg r (c.gpr r) c ≡ c
set_reg_same r c = ap (λ g. record c { gpr = g }) (fun_ext same)
  where
    same : (s : ℕ) → (if s == r then c.gpr r else c.gpr s) ≡ c.gpr s
    same s = grind arith

mov_to_itself : (r : ℕ) (c : Cpu) → Computes (mov_reg_reg r r) c (set_reg r (c.gpr r) c)
unfolding mov_reg_reg
mov_to_itself r c =
    let e : (r == r) ≡ true = ground arith in rw (e, set_reg_same r c) (Computes-nil c)

-- A move to the same register is no instruction.
pub Computes-mov_reg_reg :
    (dst src : ℕ) (c : Cpu)
    → dst < 16
    → src < 16
    → Computes (mov_reg_reg dst src) c (set_reg dst (c.gpr src) c)
unfolding execute alu
Computes-mov_reg_reg dst src c h k = elim (Bool-cases (dst == src)) [
  | inl e ↦ rw ((==_iff dst src).0 e) (mov_to_itself src c)
  | inr e ↦
      Computes-insn (RegReg.insn RegReg.mov_reg_reg dst src)
        (λ rest. RegReg.decode-reg_reg RegReg.mov_reg_reg dst src rest h k (ground arith)) refl
]

pub Computes-move_if_other :
    (dst src : ℕ) (c : Cpu)
    → dst < 16
    → src < 16
    → Computes (if dst == src then [] else mov_reg_reg dst src) c (set_reg dst (c.gpr src) c)
Computes-move_if_other dst src c h k = elim (Bool-cases (dst == src)) [
  | inl e ↦ rw ((==_iff dst src).0 e) (nothing src)
  | inr e ↦ rw e (Computes-mov_reg_reg dst src c h k)
]
  where
    nothing : (r : ℕ) → Computes (if r == r then [] else mov_reg_reg r r) c (set_reg r (c.gpr r) c)
    nothing r = let e : (r == r) ≡ true = ground arith in rw (e, set_reg_same r c) (Computes-nil c)

pub Computes-mov_reg_imm64 :
    (dst v : ℕ) (c : Cpu)
    → dst < 16
    → v < 2 ^ 64
    → Computes (mov_reg_imm64 dst v) c (set_reg dst v c)
unfolding execute alu
Computes-mov_reg_imm64 dst v c h k =
    Computes-insn (RegImm.insn RegImm.mov_reg_imm64 dst v)
      (λ rest. RegImm.decode-reg_imm RegImm.mov_reg_imm64 dst v rest h k (omega arith)) refl

pub Computes-mov_reg_mem :
    (dst base disp : ℕ) (c : Cpu)
    → dst < 16
    → base < 16
    → disp < 2 ^ 32
    → Computes (mov_reg_mem dst base disp) c (set_reg dst (load64 c.memory (address base disp c)) c)
unfolding execute alu
Computes-mov_reg_mem dst base disp c h k l =
    Computes-insn (Memory.load_insn Memory.mov_reg_mem dst base disp)
      (λ rest. Memory.decode-load Memory.mov_reg_mem dst base disp rest h k l) refl

pub Computes-mov_mem_reg :
    (base disp src : ℕ) (c : Cpu)
    → src < 16
    → base < 16
    → disp < 2 ^ 32
    → Computes
        (mov_mem_reg base disp src)
        c
        (record c { memory = store64 (address base disp c) (c.gpr src) c.memory })
unfolding execute alu
Computes-mov_mem_reg base disp src c h k l =
    Computes-insn (Memory.store_insn Memory.mov_mem_reg base disp src)
      (λ rest. Memory.decode-store Memory.mov_mem_reg base disp src rest h k l) refl

execute_reg_reg :
    (m : RegReg.RegReg) (dst src v : ℕ) (c : Cpu)
    → RegReg.is_wide m ≡ true
    → alu (RegReg.mnemonic m) (c.gpr dst) (c.gpr src) ≡ some v
    → execute (RegReg.insn m dst src) c ≡ some (set_reg dst v c)
unfolding execute
execute_reg_reg RegReg.movzxd_reg_reg dst src v c wide e = ground arith
execute_reg_reg _ dst src v c wide e = ap (λ o. with_value o λ w. some (set_reg dst w c)) e

-- `op dst, src` and `op dst, imm`.
pub Computes-reg_reg :
    (m : RegReg.RegReg) (dst src v : ℕ) (c : Cpu)
    → dst < 16
    → src < 16
    → RegReg.Writes m dst src
    → RegReg.is_wide m ≡ true
    → alu (RegReg.mnemonic m) (c.gpr dst) (c.gpr src) ≡ some v
    → Computes (RegReg.encode m dst src) c (set_reg dst v c)
Computes-reg_reg m dst src v c h k w wide e =
    Computes-insn (RegReg.insn m dst src) (λ rest. RegReg.decode-reg_reg m dst src rest h k w)
      (execute_reg_reg m dst src v c wide e)

-- A method whose instruction extends its `int32_t` immediate.
pub data IsImm32 : RegImm.RegImm → Type 0 where
  add : IsImm32 RegImm.add_reg_imm32
  sub : IsImm32 RegImm.sub_reg_imm32
  and : IsImm32 RegImm.and_reg_imm32
  or : IsImm32 RegImm.or_reg_imm32
  xor : IsImm32 RegImm.xor_reg_imm32

pub Computes-reg_imm :
    (m : RegImm.RegImm) (dst imm v : ℕ) (c : Cpu)
    → IsImm32 m
    → dst < 16
    → imm < 2 ^ 32
    → alu (RegImm.mnemonic m) (c.gpr dst) (sign_extend32 imm) ≡ some v
    → Computes (RegImm.encode m dst imm) c (set_reg dst v c)
unfolding execute
Computes-reg_imm m dst imm v c i h k e =
    Computes-insn (RegImm.insn m dst imm)
      (λ rest. RegImm.decode-reg_imm m dst imm rest h (limit i k) (no_source i)) (executes i e)
  where
    no_source : {m : RegImm.RegImm} → IsImm32 m → RegImm.source_reg m < 16
    no_source add = omega arith
    no_source sub = omega arith
    no_source and = omega arith
    no_source or = omega arith
    no_source xor = omega arith

    limit : {m : RegImm.RegImm} → IsImm32 m → imm < 2 ^ 32 → imm < RegImm.imm_limit m
    limit add k = k
    limit sub k = k
    limit and k = k
    limit or k = k
    limit xor k = k

    executes :
        {m : RegImm.RegImm}
        → IsImm32 m
        → alu (RegImm.mnemonic m) (c.gpr dst) (sign_extend32 imm) ≡ some v
        → execute (RegImm.insn m dst imm) c ≡ some (set_reg dst v c)
    executes add e = ap (λ o. with_value o λ w. some (set_reg dst w c)) e
    executes sub e = ap (λ o. with_value o λ w. some (set_reg dst w c)) e
    executes and e = ap (λ o. with_value o λ w. some (set_reg dst w c)) e
    executes or e = ap (λ o. with_value o λ w. some (set_reg dst w c)) e
    executes xor e = ap (λ o. with_value o λ w. some (set_reg dst w c)) e
