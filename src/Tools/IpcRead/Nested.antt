-- ===== src/Tools/IpcRead/Nested.antt =====
-- `print` of ipc_read.cpp on structs in structs, against their layout in C.
pub mod Uniform
pub mod Padding
use Prim.Native.Nat.{max}
use tyndall.Base.{
  ◌∙◌, ap, ap₂, sym, subst, ℕ, zero, suc, ◌+◌, ◌-◌, ◌*◌, ◌/◌, ◌%◌, ◌≤◌, ◌<◌, ◌≢◌, Bool, true, false,
  not, ◌&&◌, ◌==◌, ==→eq, Bool-cases, inl, inr, Bytes, List, [], ◌∷◌, ◌++◌, append-nil, length, ◌≡◌,
  refl, arith,
}
use tyndall.Reflect.PrintFormat.{Scalar, size_of}
use tyndall.Reflect.PrintFormat.Laws.{sizes}
use tyndall.Reflect.Reflection.{CType, Fields, scalar, aggregate, end, field, get_format}
use tyndall.Reflect.Reflection.Format.{leaves, type_leaves, typeids, get_format-typeids}
use tyndall.Tools.IpcRead.{Event, value, print}
use tyndall.Tools.IpcRead.Layout.{struct_of, value_at, fields_from, end_from, print-get_format}

-- The least multiple of `a` that is not below `at`.
abbrev pub round_up : (a at : ℕ) → ℕ
round_up a at = (at + (a - 1)) / a * a

unfoldable mutual
  -- Alignment and size in C: a struct is aligned as its most aligned field, and its size is a multiple of
  -- that.
  pub type_align : CType → ℕ
  type_align (scalar t) = size_of t
  type_align (aggregate fields) = fields_align fields

  pub fields_align : Fields → ℕ
  fields_align end = 1
  fields_align (field lhs rhs) = max (type_align lhs) (fields_align rhs)

unfoldable mutual
  unfolding type_align fields_align

  pub type_size : CType → ℕ
  type_size (scalar t) = size_of t
  type_size (aggregate fields) = round_up (fields_align fields) (fields_end 0 fields)

  -- The offset behind the last field, for fields from `at` on.
  pub fields_end : (at : ℕ) → Fields → ℕ
  fields_end at end = at
  fields_end at (field lhs rhs) = fields_end (round_up (type_align lhs) at + type_size lhs) rhs

unfoldable mutual
  unfolding type_align fields_align type_size fields_end

  -- The values of a type at an address, and those of fields from the offset `at` on in a struct at `base`.
  pub type_events : (address : ℕ) → CType → List Event
  type_events address (scalar t) = value_at t address ∷ []
  type_events address (aggregate fields) = c_fields address 0 fields

  pub c_fields : (base at : ℕ) → Fields → List Event
  c_fields base at end = []
  c_fields base at (field lhs rhs) =
      type_events (base + round_up (type_align lhs) at) lhs
      ++ c_fields base (round_up (type_align lhs) at + type_size lhs) rhs

pub fields_from-append :
    (buf at : ℕ) (ts us : List Scalar)
    → fields_from buf at (ts ++ us) ≡ fields_from buf at ts ++ fields_from buf (end_from at ts) us
fields_from-append buf at [] us = refl
fields_from-append buf at (t ∷ ts) us =
    rw (fields_from-append buf (round_up (size_of t) at + size_of t) ts us) refl

pub end_from-append :
    (at : ℕ) (ts us : List Scalar) → end_from at (ts ++ us) ≡ end_from (end_from at ts) us
end_from-append at [] us = refl
end_from-append at (t ∷ ts) us = end_from-append (round_up (size_of t) at + size_of t) ts us

leaves-struct_of : (ts : List Scalar) → leaves (struct_of ts) ≡ ts
unfolding leaves type_leaves
leaves-struct_of [] = refl
leaves-struct_of (t ∷ ts) = rw (leaves-struct_of ts) refl

-- The format of a struct is that of the basic types in it, one behind the other.
pub get_format-leaves :
    (fields : Fields) → get_format fields ≡ get_format (struct_of (leaves fields))
get_format-leaves fields =
    get_format-typeids fields
    ∙ sym (
        get_format-typeids (struct_of (leaves fields))
        ∙ ap typeids (leaves-struct_of (leaves fields)))
