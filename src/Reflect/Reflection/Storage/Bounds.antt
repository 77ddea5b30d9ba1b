-- ===== src/Reflect/Reflection/Storage/Bounds.antt =====
-- Which types of entries shared memory takes.
use tyndall.Base.{
  ◌∙◌, ap, ℕ, suc, ◌+◌, ◌%◌, ◌≤◌, Bool, true, false, ne→==, ◌&&◌, if◌then◌else◌, leb, ltb, none,
  some, bind, Bytes, List, [], ◌∷◌, length, ◌≡◌, refl, arith,
}
use tyndall.Reflect.PrintFormat.{
  Scalar, bool, float, double, int, unsigned_int, short, unsigned_short, char, unsigned_char, long,
  unsigned_long, long_long, unsigned_long_long, print_format_typeid,
}
use tyndall.Reflect.Reflection.{
  type_id, scalar, aggregate, Fields, end, field, size, get_format, reflect_max_fields,
  reflect_aggregate,
}
use tyndall.Reflect.Reflection.Format.{leaves, typeids, get_format-typeids}
use tyndall.Meta.Strval.{is_same, append}
use tyndall.Reflect.Reflection.Storage.{
  nested_compile, tailer_fits, initializable, constructed, reflect_scalar, reflect, reflect_type,
  other_scalar, listed, reflected_format, tailer_format, sizeof_tailer, is_copy_assignable,
  init_compiles,
}

reflect-aggregate : (fields : Fields) → reflect (aggregate fields) ≡ reflect_aggregate fields
unfolding reflect reflect_scalar reflect_aggregate size
reflect-aggregate end = refl
reflect-aggregate (field lhs end) = refl
reflect-aggregate (field lhs (field next rhs)) =
    rw (ne→== (1 + (1 + size rhs)) 1 (omega arith)) refl

length-typeids : (ts : List Scalar) → length (typeids ts) ≡ length ts
unfolding typeids print_format_typeid
length-typeids [] = refl
length-typeids (bool ∷ ts) = ap suc (length-typeids ts)
length-typeids (float ∷ ts) = ap suc (length-typeids ts)
length-typeids (double ∷ ts) = ap suc (length-typeids ts)
length-typeids (int ∷ ts) = ap suc (length-typeids ts)
length-typeids (unsigned_int ∷ ts) = ap suc (length-typeids ts)
length-typeids (short ∷ ts) = ap suc (length-typeids ts)
length-typeids (unsigned_short ∷ ts) = ap suc (length-typeids ts)
length-typeids (char ∷ ts) = ap suc (length-typeids ts)
length-typeids (unsigned_char ∷ ts) = ap suc (length-typeids ts)
length-typeids (long ∷ ts) = ap suc (length-typeids ts)
length-typeids (unsigned_long ∷ ts) = ap suc (length-typeids ts)
length-typeids (long_long ∷ ts) = ap suc (length-typeids ts)
length-typeids (unsigned_long_long ∷ ts) = ap suc (length-typeids ts)

sizeof_tailer-lt :
    (df : Bytes) (n line : ℕ)
    → length df ≡ n
    → line % 4 ≡ 0
    → ltb (sizeof_tailer df) line ≡ leb (n + 8) line
unfolding sizeof_tailer
sizeof_tailer-lt df n line e whole = rw (e) (ground arith)

tailer_fits-format :
    (line : ℕ) (fields : Fields) (few nested : Bool)
    → line % 4 ≡ 0
    → nested_compile fields ≡ nested
    → tailer_fits line
        (bind (bind (if few then some fields else none) (λ r. some (listed r))) reflected_format)
      ≡ (few && (nested && leb (length (leaves fields) + 8) line))
unfolding reflected_format
tailer_fits-format line fields true true whole e = rw (e) (
    sizeof_tailer-lt (get_format fields) (length (leaves fields)) line
      (ap length (get_format-typeids fields) ∙ length-typeids (leaves fields)) whole)
tailer_fits-format line fields true false whole e = rw (e) refl
tailer_fits-format line fields false nested whole e = refl

one_leaf : (t : Scalar) → length (get_format (field (scalar t) end)) ≡ 1
unfolding get_format type_id is_same append print_format_typeid
one_leaf bool = refl
one_leaf float = refl
one_leaf double = refl
one_leaf int = refl
one_leaf unsigned_int = refl
one_leaf short = refl
one_leaf unsigned_short = refl
one_leaf char = refl
one_leaf unsigned_char = refl
one_leaf long = refl
one_leaf unsigned_long = refl
one_leaf long_long = refl
one_leaf unsigned_long_long = refl

init_compiles-scalar :
    (line : ℕ) (t : Scalar) → 16 ≤ line → init_compiles line (initializable (scalar t)) ≡ true
unfolding init_compiles tailer_format reflect_type reflect reflect_scalar nested_compile
    sizeof_tailer reflected_format is_copy_assignable
init_compiles-scalar line t wide = rw (one_leaf t) (ground arith)

-- Without IPC_NO_DEBUG_DATA, a shmem_buf of a seq_lock takes a struct of basic types and structs, without
-- arrays, just if it and every struct in it have at most 30 fields, and there are at most CACHELINE_BYTES
-- - 8 basic types in it, those of the structs in it included: the format of more than that does not fit
-- into the tailer. It takes every basic type, no enum, pointer or other scalar without a typeid, and a
-- class that is no aggregate just if it is trivially copy assignable. CACHELINE_BYTES is a multiple of 4,
-- and at least 16.
pub init_compiles-leaves :
    (line : ℕ) (fields : Fields) (t : Scalar) (copyable : Bool)
    → line % 4 ≡ 0
    → 16 ≤ line
    → (init_compiles line (initializable (aggregate fields)) ≡ (
        leb (size fields) reflect_max_fields
        && (nested_compile fields && leb (length (leaves fields) + 8) line)))
      × (init_compiles line (initializable (scalar t)) ≡ true)
      × (init_compiles line other_scalar ≡ false)
      × (init_compiles line (constructed copyable) ≡ copyable)
unfolding init_compiles tailer_format reflect_type reflect_aggregate nested_compile sizeof_tailer
    get_format reflected_format is_copy_assignable
init_compiles-leaves line fields t copyable whole wide = (
  rw (reflect-aggregate fields) (
      tailer_fits-format line fields (leb (size fields) reflect_max_fields) (nested_compile fields)
        whole refl),
  init_compiles-scalar line t wide,
  refl,
  class_compiles copyable,
)
  where
    class_compiles : (copyable : Bool) → init_compiles line (constructed copyable) ≡ copyable
    class_compiles true = ground arith
    class_compiles false = refl
