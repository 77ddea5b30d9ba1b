-- ===== src/Reflect/Reflection/Format.antt =====
-- The format text of a struct against the basic types in it.
use tyndall.Base.{
  ◌∙◌, sym, ℕ, true, false, if◌then◌else◌, Option, none, some, bind, Bytes, List, [], ◌∷◌, ◌++◌,
  append_assoc, ◌≡◌, refl,
}
use tyndall.Meta.Strval.{append, is_same, get}
use tyndall.Meta.Strval.Laws.{append-++}
use tyndall.Reflect.PrintFormat.{
  Scalar, bool, float, double, int, unsigned_int, short, unsigned_short, char, unsigned_char, long,
  unsigned_long, long_long, unsigned_long_long, print_format_typeid, is_label,
}
use tyndall.Reflect.Reflection.{
  CType, Fields, scalar, aggregate, end, field, type_id, get_format, aggregate_format,
}

unfoldable mutual
  -- The basic types of a struct and of the structs in it, in the order of memory.
  pub leaves : Fields → List Scalar
  leaves end = []
  leaves (field lhs rhs) = type_leaves lhs ++ leaves rhs

  pub type_leaves : CType → List Scalar
  type_leaves (scalar t) = t ∷ []
  type_leaves (aggregate fields) = leaves fields

-- The type that a character stands for.
scalar_for : ℕ → Option Scalar
scalar_for c =
    if is_label bool c
    then some bool
    else if is_label float c
    then some float
    else if is_label double c
    then some double
    else if is_label int c
    then some int
    else if is_label unsigned_int c
    then some unsigned_int
    else if is_label short c
    then some short
    else if is_label unsigned_short c
    then some unsigned_short
    else if is_label char c
    then some char
    else if is_label unsigned_char c
    then some unsigned_char
    else if is_label long c
    then some long
    else if is_label unsigned_long c
    then some unsigned_long
    else if is_label long_long c
    then some long_long
    else if is_label unsigned_long_long c
    then some unsigned_long_long
    else none

-- The types that a format text stands for.
unfoldable pub read_format : Bytes → Option (List Scalar)
unfolding scalar_for
read_format [] = some []
read_format (c ∷ s) = bind (scalar_for c) (λ t. bind (read_format s) (λ ts. some (t ∷ ts)))

unfoldable pub typeids : List Scalar → Bytes
typeids [] = []
typeids (t ∷ ts) = print_format_typeid t ++ typeids ts

typeids-append : (ts us : List Scalar) → typeids (ts ++ us) ≡ typeids ts ++ typeids us
unfolding typeids
typeids-append [] us = refl
typeids-append (t ∷ ts) us = rw (typeids-append ts us, append_assoc)

typeid_not_empty : (t : Scalar) → is_same (print_format_typeid t) [] ≡ false
unfolding is_same print_format_typeid
typeid_not_empty bool = refl
typeid_not_empty float = refl
typeid_not_empty double = refl
typeid_not_empty int = refl
typeid_not_empty unsigned_int = refl
typeid_not_empty short = refl
typeid_not_empty unsigned_short = refl
typeid_not_empty char = refl
typeid_not_empty unsigned_char = refl
typeid_not_empty long = refl
typeid_not_empty unsigned_long = refl
typeid_not_empty long_long = refl
typeid_not_empty unsigned_long_long = refl

read_typeid :
    (t : Scalar) (s : Bytes)
    → read_format (print_format_typeid t ++ s) ≡ bind (read_format s) (λ ts. some (t ∷ ts))
unfolding read_format scalar_for is_label print_format_typeid get
read_typeid bool s = refl
read_typeid float s = refl
read_typeid double s = refl
read_typeid int s = refl
read_typeid unsigned_int s = refl
read_typeid short s = refl
read_typeid unsigned_short s = refl
read_typeid char s = refl
read_typeid unsigned_char s = refl
read_typeid long s = refl
read_typeid unsigned_long s = refl
read_typeid long_long s = refl
read_typeid unsigned_long_long s = refl

read_format-typeids : (ts : List Scalar) → read_format (typeids ts) ≡ some ts
unfolding typeids read_format
read_format-typeids [] = refl
read_format-typeids (t ∷ ts) = rw (read_typeid t (typeids ts), read_format-typeids ts)

typeids_nil : typeids [] ≡ []
unfolding typeids
typeids_nil = refl

typeids_one : (t : Scalar) → typeids (t ∷ []) ≡ print_format_typeid t ++ []
unfolding typeids
typeids_one t = refl

empty_is_same : is_same [] [] ≡ true
unfolding is_same
empty_is_same = refl

mutual
  unfolding get_format aggregate_format type_id leaves type_leaves

  pub get_format-typeids : (fields : Fields) → get_format fields ≡ typeids (leaves fields)
  get_format-typeids end = sym typeids_nil
  get_format-typeids (field lhs rhs) =
      type_format lhs (get_format rhs)
      ∙ rw (get_format-typeids rhs) (sym (typeids-append (type_leaves lhs) (leaves rhs)))

  type_format :
      (lhs : CType) (rest : Bytes)
      → (if is_same (type_id lhs) []
          then append (aggregate_format lhs) rest
          else append (type_id lhs) rest)
        ≡ typeids (type_leaves lhs) ++ rest
  type_format (scalar t) rest =
      rw (typeid_not_empty t, append-++ (print_format_typeid t) rest, typeids_one t, append_assoc)
  type_format (aggregate fields) rest =
      rw (empty_is_same, append-++ (get_format fields) rest, get_format-typeids fields)

-- The format text of a struct tells the basic types in it and their order, those of the structs in
-- it included.
pub read_format-get_format :
    (fields : Fields) → read_format (get_format fields) ≡ some (leaves fields)
read_format-get_format fields = rw (get_format-typeids fields) (read_format-typeids (leaves fields))
