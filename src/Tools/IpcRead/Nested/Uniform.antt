-- ===== src/Tools/IpcRead/Nested/Uniform.antt =====
-- Structs in structs where all basic types have one size, such as arrays and vectors of numbers.
use Prim.Native.Nat.{max}
use tyndall.Base.{
  ◌∙◌, ap, ap₂, sym, ℕ, ◌+◌, ◌%◌, ◌≤◌, Bool, true, false, ◌&&◌, ◌==◌, ==→eq, inl, inr, List, ◌++◌,
  ◌≡◌, refl, arith,
}
use tyndall.Reflect.PrintFormat.{Scalar, size_of}
use tyndall.Reflect.PrintFormat.Laws.{sizes}
use tyndall.Reflect.Reflection.{CType, Fields, scalar, aggregate, end, field, get_format}
use tyndall.Reflect.Reflection.Format.{leaves, type_leaves}
use tyndall.Tools.IpcRead.{Event, print}
use tyndall.Tools.IpcRead.Layout.{fields_from, end_from, print-get_format}
use tyndall.Tools.IpcRead.Nested.{
  round_up, type_align, fields_align, type_size, fields_end, type_events, c_fields,
  fields_from-append, end_from-append, get_format-leaves,
}

abbrev has_fields : Fields → Bool
has_fields end = false
has_fields (field lhs rhs) = true

unfoldable mutual
  -- All basic types in it have the size `s`, and no struct in it is empty.
  pub uniform : ℕ → CType → Bool
  uniform s (scalar t) = size_of t == s
  uniform s (aggregate fields) = has_fields fields && uniform_fields s fields

  pub uniform_fields : ℕ → Fields → Bool
  uniform_fields s end = true
  uniform_fields s (field lhs rhs) = uniform s lhs && uniform_fields s rhs

-- The sizes of one basic type's kind.
module _ (kind : Scalar) where
  multiple_round : (at : ℕ) → at % size_of kind ≡ 0 → round_up (size_of kind) at ≡ at
  multiple_round at h = elim (sizes kind) [
    | inl e ↦ rw (e) (omega arith)
    | inr (inl e) ↦ let h' : at % 2 ≡ 0 = rw (e) at h in rw (e) (omega arith)
    | inr (inr (inl e)) ↦ let h' : at % 4 ≡ 0 = rw (e) at h in rw (e) (omega arith)
    | inr (inr (inr e)) ↦ let h' : at % 8 ≡ 0 = rw (e) at h in rw (e) (omega arith)
  ]

  multiple_sum :
      (a b : ℕ) → a % size_of kind ≡ 0 → b % size_of kind ≡ 0 → (a + b) % size_of kind ≡ 0
  multiple_sum a b ha hb = elim (sizes kind) [
    | inl e ↦ rw (e) (omega arith)
    | inr (inl e) ↦
        let ha' : a % 2 ≡ 0 = rw (e) at ha in
        let hb' : b % 2 ≡ 0 = rw (e) at hb in rw (e) (omega arith)
    | inr (inr (inl e)) ↦
        let ha' : a % 4 ≡ 0 = rw (e) at ha in
        let hb' : b % 4 ≡ 0 = rw (e) at hb in rw (e) (omega arith)
    | inr (inr (inr e)) ↦
        let ha' : a % 8 ≡ 0 = rw (e) at ha in
        let hb' : b % 8 ≡ 0 = rw (e) at hb in rw (e) (omega arith)
  ]

  multiple_self : (size_of kind % size_of kind ≡ 0) × (0 % size_of kind ≡ 0) × (1 ≤ size_of kind)
  multiple_self = elim (sizes kind) [
    | inl e ↦ rw (e) (refl, refl, omega arith)
    | inr (inl e) ↦ rw (e) (refl, refl, omega arith)
    | inr (inr (inl e)) ↦ rw (e) (refl, refl, omega arith)
    | inr (inr (inr e)) ↦ rw (e) (refl, refl, omega arith)
  ]

  -- A type is laid out in C as the basic types in it one behind the other.
  record TypeFlat (t : CType) : Type 0 where
    alignment : type_align t ≡ size_of kind
    multiple : type_size t % size_of kind ≡ 0
    events :
        (buf at : ℕ)
        → at % size_of kind ≡ 0
        → type_events (buf + at) t ≡ fields_from buf at (type_leaves t)
    ends : (at : ℕ) → at % size_of kind ≡ 0 → end_from at (type_leaves t) ≡ at + type_size t

  record FieldsFlat (fields : Fields) : Type 0 where
    aligned : has_fields fields ≡ true → fields_align fields ≡ size_of kind
    alignment : max (size_of kind) (fields_align fields) ≡ size_of kind
    multiple : (at : ℕ) → at % size_of kind ≡ 0 → fields_end at fields % size_of kind ≡ 0
    events :
        (buf base at : ℕ)
        → base % size_of kind ≡ 0
        → at % size_of kind ≡ 0
        → c_fields (buf + base) at fields ≡ fields_from buf (base + at) (leaves fields)
    ends :
        (base at : ℕ)
        → base % size_of kind ≡ 0
        → at % size_of kind ≡ 0
        → end_from (base + at) (leaves fields) ≡ base + fields_end at fields

  scalar-TypeFlat : (t : Scalar) → size_of t ≡ size_of kind → TypeFlat (scalar t)
  unfolding type_align type_size type_events type_leaves
  scalar-TypeFlat t e = record {
    alignment = e;
    multiple = rw (e) multiple_self.0;
    events = λ buf at h. rw (e, multiple_round at h) refl;
    ends = λ at h. rw (e, multiple_round at h) refl;
  }

  aggregate-TypeFlat :
      (fields : Fields) → has_fields fields ≡ true → FieldsFlat fields → TypeFlat (aggregate fields)
  unfolding type_align type_size type_events type_leaves
  aggregate-TypeFlat fields some_field flat =
      let e : fields_align fields ≡ size_of kind = flat.aligned some_field in
      let whole : round_up (size_of kind) (fields_end 0 fields) ≡ fields_end 0 fields =
        multiple_round (fields_end 0 fields) (flat.multiple 0 multiple_self.1) in
      record {
        alignment = e;
        multiple = rw (e, whole) (flat.multiple 0 multiple_self.1);
        events = λ buf at h.
            flat.events buf at 0 h multiple_self.1
            ∙ ap (λ n. fields_from buf n (leaves fields)) (omega arith);
        ends = λ at h.
            ap (λ n. end_from n (leaves fields)) (omega arith)
            ∙ flat.ends at 0 h multiple_self.1
            ∙ ap (λ n. at + n) (rw (e, whole) refl);
      }

  end-FieldsFlat : FieldsFlat end
  unfolding fields_align fields_end c_fields leaves
  end-FieldsFlat = record {
    aligned = λ h. absurd (cc h);
    alignment = omega (arith, multiple_self.2);
    multiple = λ at h. h;
    events = λ buf base at hb ha. refl;
    ends = λ base at hb ha. refl;
  }

  field-FieldsFlat :
      (lhs : CType) (rhs : Fields) → TypeFlat lhs → FieldsFlat rhs → FieldsFlat (field lhs rhs)
  unfolding fields_align fields_end c_fields leaves
  field-FieldsFlat lhs rhs t f =
      let place : (at : ℕ) → at % size_of kind ≡ 0 → round_up (type_align lhs) at ≡ at =
        λ at h. rw (t.alignment) (multiple_round at h) in
      let next : (at : ℕ) → at % size_of kind ≡ 0 → (at + type_size lhs) % size_of kind ≡ 0 =
        λ at h. multiple_sum at (type_size lhs) h t.multiple in
      record {
        aligned = λ h. rw (t.alignment) (f.alignment);
        alignment = rw (t.alignment, f.alignment) (omega arith);
        multiple = λ at h. rw (place at h) (f.multiple (at + type_size lhs) (next at h));
        events = λ buf base at hb ha. rw (place at ha) (
            ap₂ (λ (e1 e2 : List Event). e1 ++ e2)
              (ap (λ n. type_events n lhs) (omega arith)
                ∙ t.events buf (base + at) (multiple_sum base at hb ha))
              (f.events buf base (at + type_size lhs) hb (next at ha)
                ∙ ap (λ n. fields_from buf n (leaves rhs))
                    (omega (arith, t.ends (base + at) (multiple_sum base at hb ha))))
            ∙ sym (fields_from-append buf (base + at) (type_leaves lhs) (leaves rhs)));
        ends = λ base at hb ha.
            end_from-append (base + at) (type_leaves lhs) (leaves rhs)
            ∙ rw (place at ha) (
                ap (λ n. end_from n (leaves rhs))
                  (omega (arith, t.ends (base + at) (multiple_sum base at hb ha)))
                ∙ f.ends base (at + type_size lhs) hb (next at ha));
      }

  both_true : (a b : Bool) → (a && b) ≡ true → (a ≡ true) × (b ≡ true)
  both_true true b h = (refl, h)
  both_true false b h = absurd (cc h)

  mutual
    unfolding uniform uniform_fields

    uniform-TypeFlat : (t : CType) → uniform (size_of kind) t ≡ true → TypeFlat t
    uniform-TypeFlat (scalar t) h = scalar-TypeFlat t (==→eq (size_of t) (size_of kind) h)
    uniform-TypeFlat (aggregate fields) h =
        let (some_field, same) =
          both_true (has_fields fields) (uniform_fields (size_of kind) fields) h in
        aggregate-TypeFlat fields some_field (uniform-FieldsFlat fields same)

    uniform-FieldsFlat :
        (fields : Fields) → uniform_fields (size_of kind) fields ≡ true → FieldsFlat fields
    uniform-FieldsFlat end h = end-FieldsFlat
    uniform-FieldsFlat (field lhs rhs) h =
        let (one, others) =
          both_true (uniform (size_of kind) lhs) (uniform_fields (size_of kind) rhs) h in
        field-FieldsFlat lhs rhs (uniform-TypeFlat lhs one) (uniform-FieldsFlat rhs others)

  -- With the format that reflection makes of a struct, with structs in it to any depth, `print` shows
  -- every basic type in it, in order, from the address where C places it, if these types have one size
  -- and no struct in it is empty, and if the buffer is aligned to 8 and holds the struct.
  pub print-c_fields :
      (strlen_at : ℕ → ℕ) (buf buf_size : ℕ) (fields : Fields)
      → uniform_fields (size_of kind) fields ≡ true
      → buf % 8 ≡ 0
      → fields_end 0 fields ≤ buf_size
      → print strlen_at (get_format fields) buf buf_size ≡ c_fields buf 0 fields
  print-c_fields strlen_at buf buf_size fields same h fits =
      let flat = uniform-FieldsFlat fields same in
      let ends : end_from 0 (leaves fields) ≡ fields_end 0 fields =
        ap (λ n. end_from n (leaves fields)) (omega arith)
        ∙ flat.ends 0 0 multiple_self.1 multiple_self.1
        ∙ omega arith in
      ap (λ f. print strlen_at f buf buf_size) (get_format-leaves fields)
      ∙ print-get_format strlen_at buf buf_size (leaves fields) h (omega (arith, ends))
      ∙ ap (λ n. fields_from buf n (leaves fields)) (omega arith)
      ∙ sym (flat.events buf 0 0 multiple_self.1 multiple_self.1)
      ∙ ap (λ n. c_fields n 0 fields) (omega arith)
