-- ===== src/Meta/Typeinfo.antt =====
-- tyndall/meta/typeinfo.h: a hash of a C++ type, from the text that the compiler gives for it.
use tyndall.Base.{ℕ, Bool, Bytes, length}
use tyndall.Meta.Hash.{hash_fnv1a_32_count}

-- A type: one by number that is neither a reference nor qualified, or a type made from another.
pub data CppType : Type 0 where
  plain : ℕ → CppType
  const_of : CppType → CppType
  volatile_of : CppType → CppType
  lvalue_reference : CppType → CppType
  rvalue_reference : CppType → CppType

-- `std::remove_reference_t`
unfoldable pub remove_reference : CppType → CppType
remove_reference (lvalue_reference t) = t
remove_reference (rvalue_reference t) = t
remove_reference (plain n) = plain n
remove_reference (const_of t) = const_of t
remove_reference (volatile_of t) = volatile_of t

-- `std::remove_cv_t`
unfoldable pub remove_cv : CppType → CppType
remove_cv (const_of t) = remove_cv t
remove_cv (volatile_of t) = remove_cv t
remove_cv (plain n) = plain n
remove_cv (lvalue_reference t) = lvalue_reference t
remove_cv (rvalue_reference t) = rvalue_reference t

unfoldable pub typeinfo_remove_cvref : CppType → CppType
typeinfo_remove_cvref t = remove_cv (remove_reference t)

module _ (signed : Bool) (pretty_function : CppType → Bytes) where
  -- `typeinfo_raw<Type>::hash`; `pretty_function` is its __PRETTY_FUNCTION__, a text of the compiler.
  unfoldable pub typeinfo_raw : CppType → ℕ
  typeinfo_raw t = hash_fnv1a_32_count signed (pretty_function t) (length (pretty_function t))

  unfoldable pub typeinfo_hash : CppType → ℕ
  typeinfo_hash t = typeinfo_raw (typeinfo_remove_cvref t)
