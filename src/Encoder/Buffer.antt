-- ===== src/Encoder/Buffer.antt =====
-- The code buffer of src/backend/ana_encoder.cpp.
use anastasia.Base.{
  ℕ, ◌+◌, ◌*◌, ◌/◌, ◌%◌, ◌^◌, Bool, true, false, List, [], ◌∷◌, ◌++◌, leb, ◌==◌, if◌then◌else◌,
}
use anastasia.Base.Lists.{length}
use anastasia.Base.Words.{le_bytes}

-- Whether the kernel grants the n-th `raw_mmap` call, and its size.
abbrev pub Kernel : Type 0
Kernel = ℕ → ℕ → Bool

-- `offset` is an int32_t, -1 until the label is bound.
pub record EncoderLabel : Type 0 where
  pub id : ℕ
  pub offset : ℕ
  pub bound : Bool

pub record LabelReloc : Type 0 where
  pub label_id : ℕ
  pub patch_offset : ℕ
  pub is_jcc_rel32 : Bool

-- `buffer` holds the `cursor_` bytes written so far; `capacity` is 0 while `buffer_` is null.
-- `labels` and `relocs` hold the used entries of the two arrays; `mapped` counts the mmap calls.
pub record AnaEncoder : Type 0 where
  pub failed : Bool
  pub buffer : List ℕ
  pub capacity : ℕ
  pub labels : List EncoderLabel
  pub relocs : List LabelReloc
  pub mapped : ℕ

abbrev pub cursor : AnaEncoder → ℕ
cursor e = length e.buffer

unfoldable pub reset : AnaEncoder → AnaEncoder
reset e = record e { failed = false; buffer = []; labels = []; relocs = [] }

abbrev pub grown_capacity : ℕ → ℕ → ℕ
grown_capacity capacity additional =
    if capacity == 0 then 4096 else (capacity * 2 + additional + 4095) % 2 ^ 64 / 4096 * 4096

-- A write behind `if (!ensure_capacity(n)) return;`.
abbrev pub write_bytes : List ℕ → Bool × AnaEncoder → AnaEncoder
write_bytes bs (true, e) = record e { buffer = e.buffer ++ bs }
write_bytes bs (false, e) = e

module _ (grants : Kernel) where
  -- The buffer moves to a new mapping with its `cursor_` bytes, so its contents are unchanged.
  unfoldable pub ensure_capacity : ℕ → AnaEncoder → Bool × AnaEncoder
  ensure_capacity additional e =
      let new_cap = grown_capacity e.capacity additional in
      if leb ((cursor e + additional) % 2 ^ 64) e.capacity
      then (true, e)
      else if grants e.mapped new_cap
      then (true, record e { capacity = new_cap; mapped = e.mapped + 1 })
      else (false, record e { failed = true; mapped = e.mapped + 1 })

  unfoldable pub emit8 : ℕ → AnaEncoder → AnaEncoder
  emit8 b e = write_bytes (b ∷ []) (ensure_capacity 1 e)

  unfoldable pub emit32 : ℕ → AnaEncoder → AnaEncoder
  emit32 dword e = write_bytes (le_bytes 4 dword) (ensure_capacity 4 e)

  unfoldable pub emit64 : ℕ → AnaEncoder → AnaEncoder
  emit64 qword e = write_bytes (le_bytes 8 qword) (ensure_capacity 8 e)

  -- `bs` stands for the `len` bytes at `data`, which is not null.
  unfoldable pub emit_bytes : List ℕ → AnaEncoder → AnaEncoder
  emit_bytes bs e = if length bs == 0 then e else write_bytes bs (ensure_capacity (length bs) e)

  -- The constructor.
  unfoldable pub new_encoder : AnaEncoder
  new_encoder =
      (ensure_capacity 4096 (
        reset (record {
          failed = false;
          buffer = [];
          capacity = 0;
          labels = [];
          relocs = [];
          mapped = 0;
        }))).1
