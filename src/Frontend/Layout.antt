-- ===== src/Frontend/Layout.antt =====
-- The layout of classes: the part of `parse_class` that places a field, and
-- `resolve_class_layouts`, of src/frontend/ana_parser.cpp.
use anastasia.Base.{
  ℕ, ◌+◌, ◌-◌, ◌*◌, ◌/◌, ◌%◌, ◌^◌, ◌≤◌, ◌<◌, ◌≡◌, refl, sym, ap, ◌∙◌, List, [], ◌∷◌, ◌++◌, ltb,
  if◌then◌else◌, arith, append-nil, append_assoc,
}
use anastasia.Base.Lists.{length}
use anastasia.Ast.{DataType, i64, ptr, ClassField, ClassDecl, Program}

abbrev pub field_bytes : DataType → ℕ
field_bytes i64 = 8
field_bytes ptr = 8
field_bytes _ = 4

-- `(offset + (sz - 1)) & ~(sz - 1)` of a `uint32_t`, at the sizes 4 and 8.
abbrev pub align_field : ℕ → ℕ → ℕ
align_field sz offset = (offset + (sz - 1)) % 2 ^ 32 / sz * sz

-- The inner loop of `resolve_class_layouts`, from an offset on: the fields, and the offset after
-- them.
unfoldable pub layout_fields : ℕ → List ClassField → List ClassField × ℕ
layout_fields offset [] = ([], offset)
layout_fields offset (f ∷ fs) =
    let sz = field_bytes f.type in
    let here = align_field sz offset in
    let rest = layout_fields ((here + sz) % 2 ^ 32) fs in
    (record f { offset = here } ∷ rest.0, rest.1)

unfoldable pub resolve_class : ClassDecl → ClassDecl
unfolding layout_fields
resolve_class cls =
    let (fields, offset) = layout_fields 8 cls.fields in
    let size = (offset + 7) % 2 ^ 32 / 8 * 8 in
    record cls { fields = fields; size = if ltb size 8 then 8 else size }

unfoldable resolve_classes : List ClassDecl → List ClassDecl
unfolding resolve_class
resolve_classes [] = []
resolve_classes (c ∷ cs) = resolve_class c ∷ resolve_classes cs

unfoldable pub resolve_class_layouts : Program → Program
unfolding resolve_classes
resolve_class_layouts prog = record prog { classes = resolve_classes prog.classes }

-- A field declaration of `parse_class`, at the end of the fields read before it.
unfoldable pub declare_field : List ℕ → DataType → ClassDecl → ClassDecl
declare_field name type cls =
    let sz = field_bytes type in
    let here = align_field sz cls.size in
    record cls {
      fields = cls.fields ++ record { name = name; type = type; offset = here } ∷ [];
      size = (here + sz) % 2 ^ 32;
    }

-- The class before its first field.
abbrev pub open_class : List ℕ → ClassDecl
open_class name = record { name = name; fields = []; size = 8 }

unfoldable pub declare_fields : List (List ℕ × DataType) → ClassDecl → ClassDecl
unfolding declare_field
declare_fields [] cls = cls
declare_fields ((name, type) ∷ ds) cls = declare_fields ds (declare_field name type cls)

-- From `lo` to `hi` every field begins where the ones before it end or later, at a multiple of its
-- size.
abbrev pub Laid : ℕ → List ClassField → ℕ → Type 0
Laid lo [] hi = lo ≤ hi
Laid lo (f ∷ fs) hi =
    (lo ≤ f.offset)
    × (f.offset % field_bytes f.type ≡ 0)
    × Laid (f.offset + field_bytes f.type) fs hi

align_field_lem :
    (t : DataType) (offset : ℕ)
    → offset < 2 ^ 32 - 8
    → (offset ≤ align_field (field_bytes t) offset)
      × (align_field (field_bytes t) offset % field_bytes t ≡ 0)
      × (align_field (field_bytes t) offset + field_bytes t ≤ offset + 15)
align_field_lem t offset h = ground arith

layout_fields-Laid :
    (offset : ℕ) (fs : List ClassField)
    → offset + 16 * length fs < 2 ^ 32 - 8
    → Laid offset (layout_fields offset fs).0 (layout_fields offset fs).1
      × ((layout_fields offset fs).1 ≤ offset + 16 * length fs)
unfolding layout_fields
layout_fields-Laid offset [] h = (omega arith, omega arith)
layout_fields-Laid offset (f ∷ fs) h =
    let (above, multiple, below) = align_field_lem f.type offset (omega arith) in
    let next : ℕ = align_field (field_bytes f.type) offset + field_bytes f.type in
    let small : next % 2 ^ 32 ≡ next = omega arith in
    rw small (
      let (laid, bound) = layout_fields-Laid next fs (omega arith) in
      ((above, multiple, laid), omega arith))

Laid-mono : (lo : ℕ) (fs : List ClassField) (m n : ℕ) → m ≤ n → Laid lo fs m → Laid lo fs n
Laid-mono lo [] m n h k = omega arith
Laid-mono lo (f ∷ fs) m n h (k, l, rest) =
    (k, l, Laid-mono (f.offset + field_bytes f.type) fs m n h rest)

-- A class of less than 2^27 fields: every field begins behind the vtable pointer and behind the
-- fields before it, at a multiple of its size, and ends inside the class, whose size is a multiple
-- of 8.
pub resolve_class-Laid :
    (cls : ClassDecl)
    → length cls.fields < 2 ^ 27
    → Laid 8 (resolve_class cls).fields (resolve_class cls).size
      × ((resolve_class cls).size % 8 ≡ 0)
unfolding resolve_class
resolve_class-Laid cls h =
    let (laid, bound) = layout_fields-Laid 8 cls.fields (omega arith) in
    let end : ℕ = (layout_fields 8 cls.fields).1 in
    let size : ℕ = if ltb ((end + 7) % 2 ^ 32 / 8 * 8) 8 then 8 else (end + 7) % 2 ^ 32 / 8 * 8 in
    let covers : end ≤ size = ground arith in
    (Laid-mono 8 (layout_fields 8 cls.fields).0 end size covers laid, ground arith)

-- The declared fields, before they are placed.
raw_fields : List (List ℕ × DataType) → List ClassField
raw_fields [] = []
raw_fields ((name, type) ∷ ds) = record { name = name; type = type; offset = 0 } ∷ raw_fields ds

declare_fields-layout_fields :
    (ds : List (List ℕ × DataType)) (cls : ClassDecl)
    → declare_fields ds cls ≡ record cls {
      fields = cls.fields ++ (layout_fields cls.size (raw_fields ds)).0;
      size = (layout_fields cls.size (raw_fields ds)).1;
    }
unfolding declare_fields layout_fields raw_fields
declare_fields-layout_fields [] cls =
    ap (λ fs. record cls { fields = fs }) (sym (append-nil cls.fields))
declare_fields-layout_fields ((name, type) ∷ ds) cls =
    let sz : ℕ = field_bytes type in
    let here : ℕ = align_field sz cls.size in
    let next : ℕ = (here + sz) % 2 ^ 32 in
    declare_fields-layout_fields ds (declare_field name type cls)
    ∙ ap (λ fs. record cls { fields = fs; size = (layout_fields next (raw_fields ds)).1 })
        (append_assoc cls.fields (record { name = name; type = type; offset = here } ∷ [])
          (layout_fields next (raw_fields ds)).0)

layout_fields_again :
    (offset : ℕ) (fs : List ClassField)
    → (layout_fields offset (layout_fields offset fs).0).0 ≡ (layout_fields offset fs).0
unfolding layout_fields
layout_fields_again offset [] = refl
layout_fields_again offset (f ∷ fs) =
    let here : ℕ = align_field (field_bytes f.type) offset in
    ap (λ gs. record f { offset = here } ∷ gs)
      (layout_fields_again ((here + field_bytes f.type) % 2 ^ 32) fs)

-- Resolving the layout of a class gives every field the place that the parser gave it when it read
-- the declaration, whatever fields the class declares.
pub resolve_class-declare_fields :
    (name : List ℕ) (ds : List (List ℕ × DataType))
    → let cls = declare_fields ds (open_class name) in (resolve_class cls).fields ≡ cls.fields
unfolding resolve_class
resolve_class-declare_fields name ds =
    rw (declare_fields-layout_fields ds (open_class name)) (layout_fields_again 8 (raw_fields ds))
