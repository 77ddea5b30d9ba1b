-- ===== src/Meta/Hash/Differ.antt =====
-- hash.h tells apart two texts that differ in one byte: no round loses information.
use mathlib.Core.List.{foldl}
use tyndall.Base.{
  ℕ, ◌*◌, ◌%◌, ◌^◌, ◌<◌, bit_xor-lt, bit_xor_inj_left, bit_xor_inj_right, Bool, true, false, Bytes,
  [], ◌∷◌, ◌++◌, ◌≡◌, ◌≢◌, sym, ◌∙◌, ap, arith, All,
}
use tyndall.Meta.Hash.{char_to_u32, offset_basis, fnv_prime, hash_fnv1a_32}
use tyndall.Meta.Hash.Fold.{fnv_round, hash-foldl}

abbrev pub IsByte : ℕ → Type 0
IsByte c = c < 256

char_to_u32-lt : (signed : Bool) (c : ℕ) → IsByte c → char_to_u32 signed c < 2 ^ 32
unfolding char_to_u32
char_to_u32-lt true c h = ground arith
char_to_u32-lt false c h = omega arith

char_to_u32_inj :
    (signed : Bool) (c d : ℕ)
    → IsByte c
    → IsByte d
    → char_to_u32 signed c ≡ char_to_u32 signed d
    → c ≡ d
unfolding char_to_u32
char_to_u32_inj true c d hc hd e = ground arith
char_to_u32_inj false c d hc hd e = e

-- 899433627 is the inverse of the prime modulo 2 ^ 32.
unmul : (x : ℕ) → x < 2 ^ 32 → x * fnv_prime % 2 ^ 32 * 899433627 % 2 ^ 32 ≡ x
unmul x h = omega arith

mul_prime_inj :
    (x y : ℕ) → x < 2 ^ 32 → y < 2 ^ 32 → x * fnv_prime % 2 ^ 32 ≡ y * fnv_prime % 2 ^ 32 → x ≡ y
mul_prime_inj x y hx hy e = sym (unmul x hx) ∙ ap (λ (t : ℕ). t * 899433627 % 2 ^ 32) e ∙ unmul y hy

module _ (signed : Bool) where
  pub fnv_round-lt : (h c : ℕ) → fnv_round signed h c < 2 ^ 32
  fnv_round-lt h c = omega arith

  round_inj_hash :
      (g h c : ℕ)
      → g < 2 ^ 32
      → h < 2 ^ 32
      → IsByte c
      → fnv_round signed g c ≡ fnv_round signed h c
      → g ≡ h
  round_inj_hash g h c hg hh hc e =
      let bound = char_to_u32-lt signed c hc in
      bit_xor_inj_left g h (char_to_u32 signed c)
        (mul_prime_inj _ _ (bit_xor-lt 32 _ _ hg bound) (bit_xor-lt 32 _ _ hh bound) e)

  round_inj_byte :
      (h c d : ℕ)
      → h < 2 ^ 32
      → IsByte c
      → IsByte d
      → fnv_round signed h c ≡ fnv_round signed h d
      → c ≡ d
  round_inj_byte h c d hh hc hd e = char_to_u32_inj signed c d hc hd (
      bit_xor_inj_right _ _ h (
        mul_prime_inj _ _ (bit_xor-lt 32 _ _ hh (char_to_u32-lt signed c hc))
          (bit_xor-lt 32 _ _ hh (char_to_u32-lt signed d hd)) e))

  rounds_inj :
      (t : Bytes) (g h : ℕ)
      → All IsByte t
      → g < 2 ^ 32
      → h < 2 ^ 32
      → foldl (fnv_round signed) g t ≡ foldl (fnv_round signed) h t
      → g ≡ h
  rounds_inj [] g h _ hg hh e = e
  rounds_inj (c ∷ t) g h (hc, ht) hg hh e = round_inj_hash g h c hg hh hc (
      rounds_inj t (fnv_round signed g c) (fnv_round signed h c) ht (fnv_round-lt g c)
        (fnv_round-lt h c) e)

  rounds-lt : (t : Bytes) (h : ℕ) → h < 2 ^ 32 → foldl (fnv_round signed) h t < 2 ^ 32
  rounds-lt [] h hh = hh
  rounds-lt (c ∷ t) h hh = rounds-lt t (fnv_round signed h c) (fnv_round-lt h c)

  -- The hash is a `uint32_t`.
  pub hash-lt : (s : Bytes) → hash_fnv1a_32 signed s < 2 ^ 32
  hash-lt s = rw (hash-foldl signed s) (rounds-lt s offset_basis (omega arith))

  rounds_differ :
      (p t : Bytes) (h c d : ℕ)
      → h < 2 ^ 32
      → IsByte c
      → IsByte d
      → All IsByte t
      → foldl (fnv_round signed) h (p ++ c ∷ t) ≡ foldl (fnv_round signed) h (p ++ d ∷ t)
      → c ≡ d
  rounds_differ [] t h c d hh hc hd ht e =
      round_inj_byte h c d hh hc hd (rounds_inj t _ _ ht (fnv_round-lt h c) (fnv_round-lt h d) e)
  rounds_differ (b ∷ p) t h c d hh hc hd ht e =
      rounds_differ p t (fnv_round signed h b) c d (fnv_round-lt h b) hc hd ht e

  -- Two texts of bytes that differ in exactly one place have different hashes, whether char is
  -- signed or not.
  pub hash_differ :
      (p t : Bytes) (c d : ℕ)
      → IsByte c
      → IsByte d
      → All IsByte t
      → c ≢ d
      → hash_fnv1a_32 signed (p ++ c ∷ t) ≢ hash_fnv1a_32 signed (p ++ d ∷ t)
  hash_differ p t c d hc hd ht ne e = ne (
      rounds_differ p t offset_basis c d (omega arith) hc hd ht
        (sym (hash-foldl signed (p ++ c ∷ t)) ∙ e ∙ hash-foldl signed (p ++ d ∷ t)))
