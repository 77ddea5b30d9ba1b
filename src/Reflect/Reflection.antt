-- ===== src/Reflect/Reflection.antt =====
-- tyndall/reflect/reflection.h and reflect.h: the fields of a struct in order, and the format text
-- made of them. A value is not modelled: a reflection stands for the types of its fields.
pub mod Format
pub mod Storage
use tyndall.Base.{
  ℕ, zero, suc, ◌+◌, Bool, true, false, if◌then◌else◌, leb, Option, none, some, bind, Bytes, List,
  [], ◌∷◌, ◌++◌,
}
use tyndall.Meta.Strval.{append, is_same}
use tyndall.Meta.Macro.{m_inc, m_range}
use tyndall.Reflect.PrintFormat.{Scalar, print_format_typeid}

mutual
  -- A type that can be reflected: a basic type, or a struct of fields.
  pub data CType : Type 0 where
    scalar : Scalar → CType
    aggregate : Fields → CType

  -- `reflection<Lhs, Rhs...>`
  pub data Fields : Type 0 where
    end : Fields
    field : (lhs : CType) (rhs : Fields) → Fields

-- `print_format_typeid`, with its general instance.
unfoldable pub type_id : CType → Bytes
type_id (scalar t) = print_format_typeid t
type_id (aggregate fields) = []

-- `reflection::size`
unfoldable pub size : Fields → ℕ
size end = 0
size (field lhs rhs) = 1 + size rhs

-- `reflection::get`: there is no instance past the end.
unfoldable pub get_field : ℕ → Fields → Option CType
get_field index end = none
get_field zero (field lhs rhs) = some lhs
get_field (suc index) (field lhs rhs) = get_field index rhs

unfoldable mutual
  -- `reflection::get_format`
  pub get_format : Fields → Bytes
  get_format end = []
  get_format (field lhs rhs) =
      let nested = aggregate_format lhs in
      let rhs_format = get_format rhs in
      let lhs_format = type_id lhs in
      if is_same lhs_format [] then append nested rhs_format else append lhs_format rhs_format

  -- `reflect_aggregate<Lhs>().get_format()`, asked only of structs.
  pub aggregate_format : CType → Bytes
  aggregate_format (scalar t) = []
  aggregate_format (aggregate fields) = get_format fields

abbrev pub reflect_max_fields : ℕ
reflect_max_fields = 30

-- `reflect_aggregate`; `none` is the failed static_assert.
unfoldable pub reflect_aggregate : Fields → Option Fields
reflect_aggregate fields = if leb (size fields) reflect_max_fields then some fields else none
