-- ===== src/Encoder/Session.antt =====
-- Whole sessions with the encoder of src/backend/ana_encoder.cpp: any sequence of its methods from
-- the constructor on, then `resolve_labels`.
use anastasia.Base.{ℕ, List, [], ◌∷◌, arith}
use anastasia.Encoder.Buffer.{Kernel, AnaEncoder, reset, new_encoder, ensure_capacity}
use anastasia.Encoder.Prefix.{Code, emit}
use anastasia.Encoder.Growth.{AddressSpace}
use anastasia.Encoder.Labels.{
  new_label, bind_label, jmp_label, je_label, jne_label, jl_label, jge_label, jz_label, jnz_label,
}
use anastasia.Encoder.Invariant.{
  IsValid, reset-IsValid, new_label-IsValid, bind_label-IsValid, emit-IsValid, jmp_label-IsValid,
  jcc-IsValid,
}

-- A call of a method; `emission` stands for every method that only writes bytes.
pub data Call : Type 0 where
  emission : Code → Call
  label restart : Call
  bind jmp je jne jl jge jz jnz : ℕ → Call

module _ (grants : Kernel) where
  unfoldable pub step : Call → AnaEncoder → AnaEncoder
  step (emission c) e = emit grants c e
  step label e = (new_label e).1
  step restart e = reset e
  step (bind i) e = bind_label i e
  step (jmp i) e = jmp_label grants i e
  step (je i) e = je_label grants i e
  step (jne i) e = jne_label grants i e
  step (jl i) e = jl_label grants i e
  step (jge i) e = jge_label grants i e
  step (jz i) e = jz_label grants i e
  step (jnz i) e = jnz_label grants i e

  unfoldable pub run : List Call → AnaEncoder → AnaEncoder
  run [] e = e
  run (c ∷ cs) e = run cs (step c e)

  -- The encoder after a session.
  abbrev pub session : List Call → AnaEncoder
  session cs = run cs (new_encoder grants)

module _ (grants : Kernel) (space : AddressSpace grants) where
  pub step-IsValid : (c : Call) (e : AnaEncoder) → IsValid e → IsValid (step grants c e)
  unfolding step je_label jne_label jl_label jge_label jz_label jnz_label
  step-IsValid (emission c) e h = emit-IsValid grants space c e h
  step-IsValid label e h = new_label-IsValid e h
  step-IsValid restart e h = reset-IsValid e h.sized
  step-IsValid (bind i) e h = bind_label-IsValid i e h
  step-IsValid (jmp i) e h = jmp_label-IsValid grants space i e h
  step-IsValid (je i) e h = jcc-IsValid grants space 0x84 i e h
  step-IsValid (jne i) e h = jcc-IsValid grants space 0x85 i e h
  step-IsValid (jl i) e h = jcc-IsValid grants space 0x8C i e h
  step-IsValid (jge i) e h = jcc-IsValid grants space 0x8D i e h
  step-IsValid (jz i) e h = jcc-IsValid grants space 0x84 i e h
  step-IsValid (jnz i) e h = jcc-IsValid grants space 0x85 i e h

  run-IsValid : (cs : List Call) (e : AnaEncoder) → IsValid e → IsValid (run grants cs e)
  unfolding run
  run-IsValid [] e h = h
  run-IsValid (c ∷ cs) e h = run-IsValid cs (step grants c e) (step-IsValid c e h)

  pub new_encoder-IsValid : IsValid (new_encoder grants)
  unfolding new_encoder ensure_capacity reset
  new_encoder-IsValid = ground (arith, space 0 4096)

  pub session-IsValid : (cs : List Call) → IsValid (session grants cs)
  session-IsValid cs = run-IsValid cs (new_encoder grants) new_encoder-IsValid
