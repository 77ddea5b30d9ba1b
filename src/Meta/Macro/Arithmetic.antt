-- ===== src/Meta/Macro/Arithmetic.antt =====
-- The tables of macro.h against arithmetic.
use tyndall.Base.{
  ◌∙◌, ℕ, zero, suc, ◌+◌, ◌-◌, ◌↔◌, ◌<◌, ◌≤◌, true, false, ◌==◌, ne→==, none, some, bind, List, [],
  ◌∷◌, ◌++◌, ◌≡◌, ◌≢◌, refl, arith, Bool-cases, inl, inr, ==→eq, ap,
}
use tyndall.Meta.MacroTables.{dec_table, inc_table, compare_table}
use tyndall.Meta.Macro.{
  look_up, contains, m_dec, m_inc, m_is_comparable, m_primitive_compare, m_not_equal,
}

-- The table of `f` on `k` numbers from `n` on.
abbrev rows : (ℕ → ℕ) → ℕ → ℕ → List (ℕ × ℕ)
rows f zero n = []
rows f (suc k) n = (n, f n) ∷ rows f k (suc n)

look_up-rows : (f : ℕ → ℕ) (k n i : ℕ) → n ≤ i → i < n + k → look_up (rows f k n) i ≡ some (f i)
look_up-rows f zero n i h lt = absurd (omega arith)
look_up-rows f (suc k) n i h lt = elim (Bool-cases (n == i)) [
  | inl e ↦ let same : n ≡ i = ==→eq n i e in rw (e, same)
  | inr e ↦
      let other : n ≢ i = ground arith in
      rw (e) (look_up-rows f k (suc n) i (omega arith) (omega arith))
]

look_up-rows-none : (f : ℕ → ℕ) (k n i : ℕ) → i < n → look_up (rows f k n) i ≡ none
look_up-rows-none f zero n i h = refl
look_up-rows-none f (suc k) n i h =
    let e : (n == i) ≡ false = ne→== n i (omega arith) in
    rw (e) (look_up-rows-none f k (suc n) i (omega arith))

dec_table-rows : dec_table ≡ rows (λ n. n - 1) 127 1
unfolding dec_table
dec_table-rows = refl

inc_table-rows : inc_table ≡ rows (λ n. n + 1) 127 0 ++ (127, 0) ∷ []
unfolding inc_table
inc_table-rows = refl

look_up-append : (t u : List (ℕ × ℕ)) (i v : ℕ) → look_up t i ≡ some v → look_up (t ++ u) i ≡ some v
look_up-append [] u i v h = cc
look_up-append ((name, text) ∷ t) u i v h = elim (Bool-cases (name == i)) [
  | inl e ↦ rw (e) (rw (e) at h)
  | inr e ↦ rw (e) (look_up-append t u i v (rw (e) at h))
]

pub m_dec_lem : (n : ℕ) → n < 127 → m_dec (n + 1) ≡ some n
unfolding m_dec
m_dec_lem n h =
    rw (dec_table-rows)
      (look_up-rows (λ n. n - 1) 127 1 (n + 1) (omega arith) (omega arith) ∙ ap some (omega arith))

pub m_dec_zero : m_dec 0 ≡ none
unfolding m_dec
m_dec_zero = rw (dec_table-rows) (look_up-rows-none (λ n. n - 1) 127 1 0 (omega arith))

m_inc_lem : (n : ℕ) → n < 127 → m_inc n ≡ some (n + 1)
unfolding m_inc
m_inc_lem n h = rw (inc_table-rows) (
    look_up-append (rows (λ n. n + 1) 127 0) ((127, 0) ∷ []) n (n + 1)
      (look_up-rows (λ n. n + 1) 127 0 n (omega arith) (omega arith)))

-- For numbers below 127, M_DEC takes back M_INC; for those from 1 to 127, M_INC takes back M_DEC.
pub m_dec-m_inc :
    (n : ℕ)
    → n < 127
    → (bind (m_inc n) m_dec ≡ some n) × (bind (m_dec (n + 1)) m_inc ≡ some (n + 1))
m_dec-m_inc n h = (rw (m_inc_lem n h) (m_dec_lem n h), rw (m_dec_lem n h) (m_inc_lem n h))

-- The numbers from `n` on, `k` of them.
abbrev pub numbers : ℕ → ℕ → List ℕ
numbers n zero = []
numbers n (suc k) = n ∷ numbers (suc n) k

compare_table-numbers : compare_table ≡ numbers 0 128
unfolding compare_table
compare_table-numbers = refl

contains-numbers : (k n i : ℕ) → n ≤ i → i < n + k → contains (numbers n k) i ≡ true
contains-numbers zero n i h lt = absurd (omega arith)
contains-numbers (suc k) n i h lt = elim (Bool-cases (n == i)) [
  | inl e ↦ rw (e)
  | inr e ↦
      let other : n ≢ i = ground arith in
      rw (e) (contains-numbers k (suc n) i (omega arith) (omega arith))
]

pub is_comparable_lem : (n : ℕ) → n ≤ 127 → m_is_comparable n ≡ true
unfolding m_is_comparable
is_comparable_lem n h =
    rw (compare_table-numbers) (contains-numbers 128 0 n (omega arith) (omega arith))

-- M_NOT_EQUAL tells the numbers up to 127 apart.
pub m_not_equal_iff : (x y : ℕ) → x ≤ 127 → y ≤ 127 → (m_not_equal x y ≡ true) ↔ (x ≢ y)
unfolding m_not_equal m_primitive_compare
m_not_equal_iff x y hx hy =
    rw (is_comparable_lem x hx, is_comparable_lem y hy) (λ h. ground arith, λ h. ground arith)
