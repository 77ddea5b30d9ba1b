-- ===== src/Reflect/NFields.antt =====
-- tyndall/reflect/n_fields.h: how many fields an aggregate has, found out by trying to initialize it.
use tyndall.Base.{
  ℕ, zero, suc, ◌+◌, ◌-◌, ◌*◌, ◌/◌, ◌%◌, ◌^◌, ◌<◌, ◌≤◌, Bool, if◌then◌else◌, Option, none, some,
  bind, leb, ◌≡◌, arith, Bool-cases, inl, inr,
}

-- `constructible n`: the compiler accepts T{...} with n initializers, which `constructible_t` asks.
-- `none` stands for templates without end, a compile error.
module _ (constructible : ℕ → Bool) where
  -- The overload on long is preferred if it exists; `N-1` is on size_t, of 64 bits.
  unfoldable pub n_fields_linear : ℕ → ℕ → Option ℕ
  n_fields_linear zero n = none
  n_fields_linear (suc depth) n =
      let next = n_fields_linear depth ((n + (2 ^ 64 - 1)) % 2 ^ 64) in
      if constructible n then some n else next

  unfoldable pub n_fields_binary : ℕ → ℕ → Option ℕ
  n_fields_binary zero n = none
  n_fields_binary (suc depth) n =
      let next = n_fields_binary depth (n / 2) in if constructible n then some n else next

  -- `size` is sizeof(T), and CHAR_BIT is 8. The depth is that which fields enough need.
  unfoldable pub n_fields : ℕ → Option ℕ
  n_fields size =
      let max_field_count = size * 8 in
      bind (n_fields_binary (suc max_field_count) max_field_count)
        (λ binary_search. n_fields_linear (suc (suc (binary_search * 2))) (binary_search * 2 + 1))

-- The compiler accepts as many initializers as there are fields, and fewer.
pub record Counts (constructible : ℕ → Bool) (fields : ℕ) : Type 0 where
  pub counts : (n : ℕ) → constructible n ≡ leb n fields

module _ (constructible : ℕ → Bool) (fields : ℕ) (h : Counts constructible fields) where
  linear_down :
      (depth n : ℕ)
      → fields ≤ n
      → n < 2 ^ 64
      → n ≤ fields + depth
      → n_fields_linear constructible (suc depth) n ≡ some fields
  unfolding n_fields_linear
  linear_down zero n le fits enough = elim (Bool-cases (constructible n)) [
    | inl takes ↦ let at : n ≡ fields = omega arith in rw (takes, at)
    | inr fails ↦ absurd (ground (arith, fails, h.counts n))
  ]
  linear_down (suc depth) n le fits enough = elim (Bool-cases (constructible n)) [
    | inl takes ↦ let at : n ≡ fields = ground (arith, takes, h.counts n) in rw (takes, at)
    | inr fails ↦
        let more : fields < n = ground (arith, fails, h.counts n) in
        let back : (n + (2 ^ 64 - 1)) % 2 ^ 64 ≡ n - 1 = omega arith in
        rw (fails, back) (linear_down depth (n - 1) (omega arith) (omega arith) (omega arith))
  ]

  binary_down :
      (depth n : ℕ)
      → n ≤ depth
      → fields ≤ n * 2 + 1
      → (b : ℕ) × (n_fields_binary constructible (suc depth) n ≡ some b)
        × (b ≤ n)
        × (b ≤ fields)
        × (fields ≤ b * 2 + 1)
  unfolding n_fields_binary
  binary_down zero n le enough = elim (Bool-cases (constructible n)) [
    | inl takes ↦ (n, rw (takes), omega arith, ground (arith, takes, h.counts n), enough)
    | inr fails ↦ absurd (ground (arith, fails, h.counts n))
  ]
  binary_down (suc depth) n le enough = elim (Bool-cases (constructible n)) [
    | inl takes ↦ (n, rw (takes), omega arith, ground (arith, takes, h.counts n), enough)
    | inr fails ↦
        let more : fields < n = ground (arith, fails, h.counts n) in
        let (b, found, b_le, b_fields, b_enough) =
          binary_down depth (n / 2) (omega arith) (omega arith) in
        (b, rw (fails) found, omega arith, b_fields, b_enough)
  ]

  -- If the compiler accepts just as many initializers as there are fields or fewer, and the fields are
  -- no more than the bits of a type of at most 2 ^ 59 bytes, the search ends with their number.
  pub n_fields_lem :
      (size : ℕ) → fields ≤ size * 8 → size ≤ 2 ^ 59 → n_fields constructible size ≡ some fields
  unfolding n_fields
  n_fields_lem size bits small =
      let (b, found, b_le, b_fields, b_enough) =
        binary_down (size * 8) (size * 8) (omega arith) (omega arith) in
      rw (found) (linear_down (suc (b * 2)) (b * 2 + 1) b_enough (omega arith) (omega arith))
