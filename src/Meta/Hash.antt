-- ===== src/Meta/Hash.antt =====
-- tyndall/meta/hash.h: the 32 bit FNV-1a hash.
pub mod Fold
pub mod Differ
use tyndall.Base.{
  ℕ, zero, suc, ◌+◌, ◌-◌, ◌*◌, ◌%◌, ◌^◌, bit_xor, Bool, true, false, ltb, if◌then◌else◌, Bytes,
  length, get_or, ◌≡◌, refl, codes,
}

-- `static_cast<uint32_t>` of a char: where char is signed (x86), a byte from 128 on stands for a
-- negative number, and the cast extends its sign.
unfoldable pub char_to_u32 : Bool → ℕ → ℕ
char_to_u32 true c = if ltb c 128 then c else c + (2 ^ 32 - 256)
char_to_u32 false c = c

abbrev pub offset_basis : ℕ
offset_basis = 2166136261

abbrev pub fnv_prime : ℕ
fnv_prime = 16777619

module _ (signed : Bool) where
  -- The call on pointer and count. No call of the library counts past the NUL, which reads as 0.
  unfoldable pub hash_fnv1a_32_count : Bytes → ℕ → ℕ
  unfolding char_to_u32
  hash_fnv1a_32_count s zero = offset_basis
  hash_fnv1a_32_count s (suc count) =
      bit_xor (hash_fnv1a_32_count s count) (char_to_u32 signed (get_or s count 0))
      * fnv_prime
      % 2 ^ 32

  -- The calls on a strval type or value, and on a C string with `strlen`.
  unfoldable pub hash_fnv1a_32 : Bytes → ℕ
  unfolding hash_fnv1a_32_count
  hash_fnv1a_32 s = hash_fnv1a_32_count s (length s)
