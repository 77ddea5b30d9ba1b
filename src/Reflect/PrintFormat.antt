-- ===== src/Reflect/PrintFormat.antt =====
-- tyndall/reflect/print_format.h: how a value of a basic type is printed, given its type or the
-- character that stands for the type.
pub mod Laws
pub mod Conversions
use tyndall.Base.{
  ℕ, zero, suc, ◌+◌, ◌-◌, ◌%◌, Bool, true, false, if◌then◌else◌, ◌==◌, ltb, Option, none, some,
  Bytes, List, [], ◌∷◌, codes,
}
use tyndall.Meta.Strval.{append, get}

-- The basic types, those that print_format_typeid and print_format_printf have an instance for.
pub data Scalar : Type 0 where
  bool : Scalar
  float : Scalar
  double : Scalar
  int : Scalar
  unsigned_int : Scalar
  short : Scalar
  unsigned_short : Scalar
  char : Scalar
  unsigned_char : Scalar
  long : Scalar
  unsigned_long : Scalar
  long_long : Scalar
  unsigned_long_long : Scalar

-- The instances of print_format_typeid.
unfoldable pub print_format_typeid : Scalar → Bytes
print_format_typeid bool = codes "b"
print_format_typeid float = codes "f"
print_format_typeid double = codes "d"
print_format_typeid int = codes "i"
print_format_typeid unsigned_int = codes "j"
print_format_typeid short = codes "s"
print_format_typeid unsigned_short = codes "t"
print_format_typeid char = codes "c"
print_format_typeid unsigned_char = codes "h"
print_format_typeid long = codes "l"
print_format_typeid unsigned_long = codes "m"
print_format_typeid long_long = codes "x"
print_format_typeid unsigned_long_long = codes "y"

-- The instances of print_format_printf.
unfoldable pub print_format_printf : Scalar → Bytes
print_format_printf bool = codes "%d"
print_format_printf float = codes "%f"
print_format_printf double = codes "%f"
print_format_printf int = codes "%d"
print_format_printf unsigned_int = codes "%u"
print_format_printf short = codes "%d"
print_format_printf unsigned_short = codes "%u"
print_format_printf char = codes "%c"
print_format_printf unsigned_char = codes "%u"
print_format_printf long = codes "%ld"
print_format_printf unsigned_long = codes "%u"
print_format_printf long_long = codes "%lld"
print_format_printf unsigned_long_long = codes "%llu"

-- `sizeof` where long has 64 bits.
unfoldable pub size_of : Scalar → ℕ
size_of bool = 1
size_of float = 4
size_of double = 8
size_of int = 4
size_of unsigned_int = 4
size_of short = 2
size_of unsigned_short = 2
size_of char = 1
size_of unsigned_char = 1
size_of long = 8
size_of unsigned_long = 8
size_of long_long = 8
size_of unsigned_long_long = 8

-- A pointer is an address.
unfoldable pub print_format_alignment : Scalar → ℕ → ℕ
print_format_alignment t ptr =
    let alignment_error = ptr % size_of t in
    if ltb 0 alignment_error then size_of t - alignment_error else 0

-- A call of `printf`: the format, and the type and the address of the value.
pub record Printed : Type 0 where
  pub format : Bytes
  pub type : Scalar
  pub address : ℕ

-- `print_format<Fmt>`: what is printed, and the number returned.
unfoldable pub print_format_as : Scalar → ℕ → Printed × ℕ
print_format_as t data' =
    let align = print_format_alignment t data' in
    (
      record {
        format = append (print_format_printf t) (print_format_typeid t);
        type = t;
        address = data' + align;
      },
      size_of t + align,
    )

-- A case label of the switch.
unfoldable pub is_label : Scalar → ℕ → Bool
is_label t c = elim (get 0 (print_format_typeid t)) [ none ↦ false | some label ↦ c == label ]

abbrev pub returned : Printed × ℕ → Option Printed × ℕ
returned (printed, n) = (some printed, n)

-- `print_format(char, const char*)`
unfoldable pub print_format : ℕ → ℕ → Option Printed × ℕ
print_format c data' =
    if is_label bool c
    then returned (print_format_as bool data')
    else if is_label float c
    then returned (print_format_as float data')
    else if is_label double c
    then returned (print_format_as double data')
    else if is_label int c
    then returned (print_format_as int data')
    else if is_label unsigned_int c
    then returned (print_format_as unsigned_int data')
    else if is_label short c
    then returned (print_format_as short data')
    else if is_label unsigned_short c
    then returned (print_format_as unsigned_short data')
    else if is_label char c
    then returned (print_format_as char data')
    else if is_label unsigned_char c
    then returned (print_format_as unsigned_char data')
    else if is_label long c
    then returned (print_format_as long data')
    else if is_label unsigned_long c
    then returned (print_format_as unsigned_long data')
    else if is_label long_long c
    then returned (print_format_as long_long data')
    else if is_label unsigned_long_long c
    then returned (print_format_as unsigned_long_long data')
    else (none, 0)
