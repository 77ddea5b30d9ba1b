-- ===== src/Reflect/Reflection/Storage.antt =====
-- tyndall/reflect/reflect.h on the type of a topic's entries, and what shmem.h demands of its format.
pub mod Bounds
use tyndall.Base.{
  ℕ, ◌+◌, ◌*◌, ◌/◌, ◌==◌, Bool, true, false, ◌&&◌, if◌then◌else◌, leb, ltb, Option, none, some,
  bind, Bytes, length,
}
use tyndall.Reflect.PrintFormat.{Scalar}
use tyndall.Reflect.Reflection.{
  CType, scalar, aggregate, Fields, end, field, size, get_format, reflect_max_fields,
  reflect_aggregate,
}

-- A type of entries: a basic type, or a struct of basic types and structs; a scalar without a typeid, such
-- as an enum, a pointer or signed char; or a class that is no aggregate, such as one with a constructor,
-- where `copyable` says whether it is trivially copy assignable, which implies that this cannot throw.
pub data StorageType : Type 0 where
  initializable : CType → StorageType
  other_scalar : StorageType
  constructed : (copyable : Bool) → StorageType

-- What a type reflects to: the basic types and structs in it, or one scalar without a typeid.
pub data Reflected : Type 0 where
  listed : Fields → Reflected
  untyped : Reflected

-- `reflect_scalar`: of a basic type, and of a struct of one field, which it binds.
unfoldable pub reflect_scalar : CType → Option Fields
reflect_scalar (scalar t) = some (field (scalar t) end)
reflect_scalar (aggregate (field lhs end)) = some (field lhs end)
reflect_scalar (aggregate end) = none
reflect_scalar (aggregate (field lhs (field next rhs))) = none

-- `n_fields`, which is 1 for a basic type.
abbrev pub number_of_fields : CType → ℕ
number_of_fields (scalar t) = 1
number_of_fields (aggregate fields) = size fields

abbrev pub fields_of : CType → Fields
fields_of (scalar t) = field (scalar t) end
fields_of (aggregate fields) = fields

-- `reflect(T&&)`
unfoldable pub reflect : CType → Option Fields
reflect t = if number_of_fields t == 1 then reflect_scalar t else reflect_aggregate (fields_of t)

-- `reflect<T>()`
unfoldable pub reflect_type : StorageType → Option Reflected
reflect_type (initializable t) = bind (reflect t) (λ r. some (listed r))
reflect_type other_scalar = some untyped
reflect_type (constructed copyable) = some (listed end)

-- Whether `get_format` compiles: the static_assert of `reflect_aggregate` for each struct in the type.
unfoldable pub nested_compile : Fields → Bool
nested_compile end = true
nested_compile (field (scalar t) rhs) = nested_compile rhs
nested_compile (field (aggregate fields) rhs) =
    leb (size fields) reflect_max_fields && (nested_compile fields && nested_compile rhs)

-- `get_format`; of a scalar without a typeid it asks for a struct's, whose static_assert fails.
unfoldable pub reflected_format : Reflected → Option Bytes
reflected_format (listed r) = if nested_compile r then some (get_format r) else none
reflected_format untyped = none

-- `debug_format` in `init`
unfoldable pub tailer_format : StorageType → Option Bytes
tailer_format t = bind (reflect_type t) reflected_format

-- `sizeof(tailer)`: the hash of four bytes and the format, filled up to four bytes.
unfoldable pub sizeof_tailer : Bytes → ℕ
sizeof_tailer df = (4 + length df + 3) / 4 * 4

-- The static_assert on the tailer, for the CACHELINE_BYTES of the processor.
abbrev pub tailer_fits : (cacheline_bytes : ℕ) → Option Bytes → Bool
tailer_fits cacheline_bytes none = false
tailer_fits cacheline_bytes (some df) = ltb (sizeof_tailer df) cacheline_bytes

-- The static_asserts of `seq_lock` on what it stores.
unfoldable pub is_copy_assignable : StorageType → Bool
is_copy_assignable (initializable t) = true
is_copy_assignable other_scalar = true
is_copy_assignable (constructed copyable) = copyable

-- Whether a `shmem_buf` of a `seq_lock` of the type compiles: the static_asserts of seq_lock.h, of reflect.h
-- and on the tailer.
unfoldable pub init_compiles : (cacheline_bytes : ℕ) → StorageType → Bool
init_compiles cacheline_bytes t =
    is_copy_assignable t && tailer_fits cacheline_bytes (tailer_format t)
