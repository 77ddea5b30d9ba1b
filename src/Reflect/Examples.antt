-- ===== src/Reflect/Examples.antt =====
-- tyndall/reflect at concrete inputs: tests/reflect/n_fields.cpp, and the theorems applied.
use tyndall.Base.{
  zero, suc, ◌&&◌, length, true, false, bind, if◌then◌else◌, get_elem?, List, ap, ℕ, ◌+◌, ◌%◌, ◌<◌,
  Bool, leb, some, none, [], ◌∷◌, ◌≡◌, ◌≢◌, ◌↔◌, refl, arith, codes, char_at,
}
use tyndall.Meta.Strval.{is_same, append}
use tyndall.Reflect.NFields.{n_fields, Counts, n_fields_lem}
use tyndall.Reflect.PrintFormat.{
  Scalar, bool, float, double, int, unsigned_int, short, unsigned_short, char, unsigned_char, long,
  unsigned_long, long_long, unsigned_long_long, size_of, print_format_alignment,
  print_format_typeid, print_format, print_format_as, returned, Printed,
}
use tyndall.Reflect.PrintFormat.Conversions.{printf_takes, Takes, print_format-printf_takes}
use tyndall.Reflect.PrintFormat.Laws.{
  print_format_alignment_lem, print_format-typeid, print_format-other,
}
use tyndall.Reflect.Values.{reflect_values, get_value}
use tyndall.Reflect.Values.Bindings.{reflect_values-get_elem?}
use tyndall.Reflect.Reflection.Storage.{
  initializable, other_scalar, constructed, reflected_format, is_copy_assignable, reflect_scalar,
  reflect, reflect_type, nested_compile, tailer_format, sizeof_tailer, init_compiles,
}
use tyndall.Reflect.Reflection.Storage.Bounds.{init_compiles-leaves}
use tyndall.Reflect.Reflection.{
  reflect_max_fields, reflect_aggregate, size, Fields, end, field, scalar, aggregate, get_format,
  type_id,
}
use tyndall.Reflect.Reflection.Format.{read_format, leaves, read_format-get_format}

abbrev five : ℕ → Bool
five n = leb n 5

five-Counts : Counts five 5
five-Counts = record { counts = λ n. refl }

n_fields_lem_test : n_fields five 96 ≡ some 5
n_fields_lem_test = n_fields_lem five 5 five-Counts 96 (omega arith) (omega arith)

print_format_alignment_lem_test :
    ((13 + print_format_alignment int 13) % size_of int ≡ 0)
    × ((k : ℕ) → k < print_format_alignment int 13 → (13 + k) % size_of int ≢ 0)
print_format_alignment_lem_test = print_format_alignment_lem int 13

print_format-typeid_example :
    print_format (char_at (print_format_typeid double)) 8 ≡ returned (print_format_as double 8)
print_format-typeid_example = print_format-typeid double 8

print_format-printf_takes_example :
    (wanted : Scalar) × (printed : Printed) × ((print_format
        (char_at (print_format_typeid unsigned_short))
        8).0
      ≡ some printed)
    × (printed.type ≡ unsigned_short)
    × (printf_takes none printed.format ≡ some (wanted ∷ []))
    × (Takes unsigned_short wanted ↔ (unsigned_short ≢ unsigned_long))
print_format-printf_takes_example = print_format-printf_takes unsigned_short 8

not_z : (t : Scalar) → char_at (print_format_typeid t) ≢ b'z'
unfolding print_format_typeid
not_z bool e = omega arith
not_z float e = omega arith
not_z double e = omega arith
not_z int e = omega arith
not_z unsigned_int e = omega arith
not_z short e = omega arith
not_z unsigned_short e = omega arith
not_z char e = omega arith
not_z unsigned_char e = omega arith
not_z long e = omega arith
not_z unsigned_long e = omega arith
not_z long_long e = omega arith
not_z unsigned_long_long e = omega arith

no_type : (t : Scalar) → print_format_typeid t ≢ b'z' ∷ []
no_type t e = not_z t (ap char_at e)

print_format-other_example : print_format b'z' 8 ≡ (none, 0)
print_format-other_example = print_format-other b'z' 8 no_type

-- { char; struct { int; double }; char }
abbrev nested : Fields
nested =
    field (scalar char)
      (field (aggregate (field (scalar int) (field (scalar double) end))) (field (scalar char) end))

test_format : get_format nested ≡ codes "cidc"
unfolding get_format is_same type_id print_format_typeid append
test_format = refl

read_format-get_format_example : read_format (get_format nested) ≡ some (leaves nested)
read_format-get_format_example = read_format-get_format nested

init_compiles-leaves_example :
    (init_compiles 64 (initializable (aggregate nested)) ≡ (
      leb (size nested) reflect_max_fields
      && (nested_compile nested && leb (length (leaves nested) + 8) 64)))
    × (init_compiles 64 (initializable (scalar double)) ≡ true)
    × (init_compiles 64 other_scalar ≡ false)
    × (init_compiles 64 (constructed true) ≡ true)
init_compiles-leaves_example = init_compiles-leaves 64 nested double true refl (omega arith)

-- A struct of 29 basic types, and one of two of them.
abbrev fields_from : ℕ → Fields
fields_from zero = end
fields_from (suc n) = field (scalar int) (fields_from n)

too_many : Bool
too_many = init_compiles 64 (
    initializable
      (aggregate (field (aggregate (fields_from 29)) (field (aggregate (fields_from 29)) end))))

too_many_test : too_many ≡ false
unfolding too_many init_compiles is_copy_assignable reflected_format tailer_format reflect_type
    reflect reflect_scalar reflect_aggregate nested_compile sizeof_tailer get_format type_id is_same
    append print_format_typeid size
too_many_test = refl

abbrev fields_of_five : List ℕ
fields_of_five = 10 ∷ 11 ∷ 12 ∷ 13 ∷ 14 ∷ []

reflect_values-get_elem?_example :
    bind (reflect_values five 32 96 fields_of_five) (λ r. get_value 3 r)
    ≡ (if leb 5 30 then get_elem? fields_of_five 3 else none)
reflect_values-get_elem?_example =
    reflect_values-get_elem? five 31 96 3 fields_of_five five-Counts (omega arith) (omega arith)
      (omega arith)
