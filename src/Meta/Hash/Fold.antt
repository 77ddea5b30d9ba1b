-- ===== src/Meta/Hash/Fold.antt =====
-- hash.h recurs from the last byte; here it is the loop of the published algorithm.
use mathlib.Core.List.{foldl}
use tyndall.Base.{
  ℕ, zero, suc, ◌*◌, ◌%◌, ◌^◌, ◌≤◌, bit_xor, Bool, Bytes, [], ◌∷◌, ◌++◌, append-nil, length,
  length-append, get_or_last, get_or-append_left, append_assoc, ◌≡◌, refl, sym, ap, ◌∙◌, arith,
}
use tyndall.Meta.Hash.{char_to_u32, offset_basis, fnv_prime, hash_fnv1a_32_count, hash_fnv1a_32}

-- One round of FNV-1a: exclusive or with the byte, then the product with the prime.
abbrev pub fnv_round : Bool → ℕ → ℕ → ℕ
fnv_round signed h c = bit_xor h (char_to_u32 signed c) * fnv_prime % 2 ^ 32

module _ (signed : Bool) where
  -- What stands behind the counted bytes does not matter.
  count_prefix :
      (s t : Bytes) (n : ℕ)
      → n ≤ length s
      → hash_fnv1a_32_count signed (s ++ t) n ≡ hash_fnv1a_32_count signed s n
  unfolding hash_fnv1a_32_count
  count_prefix s t zero h = refl
  count_prefix s t (suc n) h =
      rw (count_prefix s t n (omega arith), get_or-append_left s t n 0 (omega arith))

  -- A text with one byte more takes one round more.
  pub hash_snoc :
      (s : Bytes) (c : ℕ)
      → hash_fnv1a_32 signed (s ++ c ∷ []) ≡ fnv_round signed (hash_fnv1a_32 signed s) c
  unfolding hash_fnv1a_32
  hash_snoc s c = rw (length_snoc) (
      unfold hash_fnv1a_32_count in
      rw (count_prefix s (c ∷ []) (length s) (omega arith), get_or_last s [] c 0))
    where
      length_snoc : length (s ++ c ∷ []) ≡ suc (length s)
      length_snoc = omega (arith, length-append s (c ∷ []))

  hash-foldl_from :
      (t s : Bytes)
      → hash_fnv1a_32 signed (s ++ t) ≡ foldl (fnv_round signed) (hash_fnv1a_32 signed s) t
  hash-foldl_from [] s = rw append-nil
  hash-foldl_from (c ∷ t) s =
      ap (hash_fnv1a_32 signed) (sym (append_assoc s (c ∷ []) t))
      ∙ hash-foldl_from t (s ++ c ∷ [])
      ∙ ap (λ (h : ℕ). foldl (fnv_round signed) h t) (hash_snoc s c)

  -- The recursion of hash.h computes the published loop: from the offset basis, one round for each
  -- byte from the first to the last.
  pub hash-foldl : (s : Bytes) → hash_fnv1a_32 signed s ≡ foldl (fnv_round signed) offset_basis s
  hash-foldl s = hash-foldl_from s [] ∙ unfold hash_fnv1a_32 hash_fnv1a_32_count in refl
