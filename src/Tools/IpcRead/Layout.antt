-- ===== src/Tools/IpcRead/Layout.antt =====
-- `print` of ipc_read.cpp with the format that reflection makes, against the layout of structs in C.
use tyndall.Base.{
  ne→==, ◌∙◌, ap, ℕ, zero, suc, ◌+◌, ◌-◌, ◌*◌, ◌/◌, ◌%◌, ◌≤◌, false, ◌==◌, ltb, Bytes, List, [],
  ◌∷◌, char_at, is_digit, length, ◌≡◌, refl, arith, inl, inr,
}
use tyndall.Meta.Strval.{append, is_same}
use tyndall.Reflect.PrintFormat.{
  Scalar, bool, float, double, int, unsigned_int, short, unsigned_short, char, unsigned_char, long,
  unsigned_long, long_long, unsigned_long_long, print_format_typeid, print_format_printf, size_of,
  print_format_alignment, print_format_as, print_format,
}
use tyndall.Reflect.PrintFormat.Laws.{sizes, print_format-typeid}
use tyndall.Reflect.Reflection.{Fields, scalar, end, field, get_format, type_id}
use tyndall.Tools.IpcRead.{Event, value, take_number, take_printed, print_loop, print}

-- A struct of basic types.
abbrev pub struct_of : List Scalar → Fields
struct_of [] = end
struct_of (t ∷ ts) = field (scalar t) (struct_of ts)

-- The least multiple of the size of `t` that is not below `at`: where C places a field.
abbrev pub place : Scalar → ℕ → ℕ
place t at = (at + (size_of t - 1)) / size_of t * size_of t

-- The values of the fields, placed from the offset `at` on, in a struct at `buf`.
abbrev pub fields_from : ℕ → ℕ → List Scalar → List Event
fields_from buf at [] = []
fields_from buf at (t ∷ ts) =
    value (record {
      format = append (print_format_printf t) (print_format_typeid t);
      type = t;
      address = buf + place t at;
    })
    ∷ fields_from buf (place t at + size_of t) ts

-- The offset behind the last field.
abbrev pub end_from : ℕ → List Scalar → ℕ
end_from at [] = at
end_from at (t ∷ ts) = end_from (place t at + size_of t) ts

typeid_one : (t : Scalar) → print_format_typeid t ≡ char_at (print_format_typeid t) ∷ []
unfolding print_format_typeid
typeid_one bool = refl
typeid_one float = refl
typeid_one double = refl
typeid_one int = refl
typeid_one unsigned_int = refl
typeid_one short = refl
typeid_one unsigned_short = refl
typeid_one char = refl
typeid_one unsigned_char = refl
typeid_one long = refl
typeid_one unsigned_long = refl
typeid_one long_long = refl
typeid_one unsigned_long_long = refl

typeid_no_digit : (t : Scalar) → is_digit (char_at (print_format_typeid t)) ≡ false
unfolding print_format_typeid
typeid_no_digit bool = refl
typeid_no_digit float = refl
typeid_no_digit double = refl
typeid_no_digit int = refl
typeid_no_digit unsigned_int = refl
typeid_no_digit short = refl
typeid_no_digit unsigned_short = refl
typeid_no_digit char = refl
typeid_no_digit unsigned_char = refl
typeid_no_digit long = refl
typeid_no_digit unsigned_long = refl
typeid_no_digit long_long = refl
typeid_no_digit unsigned_long_long = refl

pub get_format_step :
    (t : Scalar) (ts : List Scalar)
    → get_format (struct_of (t ∷ ts)) ≡ char_at (print_format_typeid t) ∷ get_format (struct_of ts)
unfolding get_format type_id is_same append print_format_typeid
get_format_step bool ts = refl
get_format_step float ts = refl
get_format_step double ts = refl
get_format_step int ts = refl
get_format_step unsigned_int ts = refl
get_format_step short ts = refl
get_format_step unsigned_short ts = refl
get_format_step char ts = refl
get_format_step unsigned_char ts = refl
get_format_step long ts = refl
get_format_step unsigned_long ts = refl
get_format_step long_long ts = refl
get_format_step unsigned_long_long ts = refl

size_pos : (t : Scalar) → 1 ≤ size_of t
size_pos t = elim (sizes t) [
  | inl e ↦ omega arith
  | inr (inl e) ↦ omega arith
  | inr (inr (inl e)) ↦ omega arith
  | inr (inr (inr e)) ↦ omega arith
]

-- In a buffer aligned to 8 the alignment of print_format.h is that of the layout.
aligned :
    (t : Scalar) (buf at : ℕ)
    → buf % 8 ≡ 0
    → buf + at + print_format_alignment t (buf + at) ≡ buf + place t at
unfolding print_format_alignment
aligned t buf at h = elim (sizes t) [
  | inl e ↦ rw (e) (ground arith)
  | inr (inl e) ↦ rw (e) (ground arith)
  | inr (inr (inl e)) ↦ rw (e) (ground arith)
  | inr (inr (inr e)) ↦ rw (e) (ground arith)
]

place_le : (t : Scalar) (at : ℕ) → at ≤ place t at
place_le t at = elim (sizes t) [
  | inl e ↦ rw (e) (omega arith)
  | inr (inl e) ↦ rw (e) (omega arith)
  | inr (inr (inl e)) ↦ rw (e) (omega arith)
  | inr (inr (inr e)) ↦ rw (e) (omega arith)
]

end_from_le : (at : ℕ) (ts : List Scalar) → at ≤ end_from at ts
end_from_le at [] = omega arith
end_from_le at (t ∷ ts) = omega (arith, place_le t at, end_from_le (place t at + size_of t) ts)

number_step :
    (t : Scalar) (f : Bytes)
    → take_number (char_at (print_format_typeid t) ∷ f)
      ≡ ([], char_at (print_format_typeid t) ∷ f, 0)
unfolding take_number
number_step t f = rw (typeid_no_digit t)

-- The value of type `t` that stands at an address.
abbrev pub value_at : Scalar → ℕ → Event
value_at t address = value (record {
  format = append (print_format_printf t) (print_format_typeid t);
  type = t;
  address = address;
})

pub get_format_end : get_format end ≡ []
unfolding get_format
get_format_end = refl

module _ (strlen_at : ℕ → ℕ) (buf buf_size : ℕ) where
  value_step :
      (t : Scalar) (b : ℕ)
      → take_printed strlen_at
          (char_at (print_format_typeid t))
          b
          (print_format (char_at (print_format_typeid t)) b)
        ≡ (value_at t (b + print_format_alignment t b) ∷ [], size_of t + print_format_alignment t b)
  unfolding take_printed print_format_as
  value_step t b =
      let some_bytes : (size_of t + print_format_alignment t b == 0) ≡ false =
        ne→== (size_of t + print_format_alignment t b) 0 (omega (arith, size_pos t)) in
      rw (print_format-typeid t b, some_bytes)

  print_step :
      (fuel : ℕ) (t : Scalar) (f : Bytes) (at : ℕ)
      → buf % 8 ≡ 0
      → place t at + size_of t ≤ buf_size
      → print_loop strlen_at
          (suc fuel)
          buf
          buf_size
          (char_at (print_format_typeid t) ∷ f)
          (buf + at)
        ≡ value_at t (buf + place t at)
          ∷ print_loop strlen_at fuel buf buf_size f (buf + (place t at + size_of t))
  unfolding print_loop
  print_step fuel t f at h fits =
      let here : buf + at + 0 ≡ buf + at = omega arith in
      let there = aligned t buf at h in
      let further : buf + at + (size_of t + print_format_alignment t (buf + at))
          ≡ buf + (place t at + size_of t) =
        omega (arith, there) in
      let some_bytes : (size_of t + print_format_alignment t (buf + at) == 0) ≡ false =
        ne→== (size_of t + print_format_alignment t (buf + at)) 0 (omega (arith, size_pos t)) in
      let within : ltb buf_size (buf + (place t at + size_of t) - buf) ≡ false = ground arith in
      rw (number_step t f, here, value_step t (buf + at), some_bytes, further, within, there)

  loop_end : (fuel b : ℕ) → print_loop strlen_at (suc fuel) buf buf_size [] b ≡ []
  unfolding print_loop
  loop_end fuel b = refl

  print_fields :
      (fuel : ℕ) (ts : List Scalar) (at : ℕ)
      → buf % 8 ≡ 0
      → end_from at ts ≤ buf_size
      → length (get_format (struct_of ts)) ≤ fuel
      → print_loop strlen_at (suc fuel) buf buf_size (get_format (struct_of ts)) (buf + at)
        ≡ fields_from buf at ts
  print_fields fuel [] at h fits enough = rw (get_format_end) (loop_end fuel (buf + at))
  print_fields zero (t ∷ ts) at h fits enough = absurd (
      let more : suc (length (get_format (struct_of ts))) ≤ zero =
        rw (get_format_step t ts) at enough in
      omega arith)
  print_fields (suc fuel) (t ∷ ts) at h fits enough =
      let more : suc (length (get_format (struct_of ts))) ≤ suc fuel =
        rw (get_format_step t ts) at enough in
      rw (get_format_step t ts) (
        print_step (suc fuel) t (get_format (struct_of ts)) at h
          (omega (arith, fits, end_from_le (place t at + size_of t) ts))
        ∙ ap (λ (events : List Event). value_at t (buf + place t at) ∷ events)
            (print_fields fuel ts (place t at + size_of t) h fits (omega arith)))

  -- With the format that reflection makes of a struct of basic types, `print` shows every field, in
  -- order, with the conversion of its type and from the address where C places it, if the buffer is
  -- aligned to 8 and holds the struct.
  pub print-get_format :
      (ts : List Scalar)
      → buf % 8 ≡ 0
      → end_from 0 ts ≤ buf_size
      → print strlen_at (get_format (struct_of ts)) buf buf_size ≡ fields_from buf 0 ts
  unfolding print
  print-get_format ts h fits =
      let start : buf + 0 ≡ buf = omega arith in
      rw start at (print_fields (length (get_format (struct_of ts))) ts 0 h fits (omega arith))
