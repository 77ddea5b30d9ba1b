-- ===== src/Base/Bits.antt =====
-- `bit_xor` at variables: one equation for the lowest digit, and the laws that follow by induction.
use Prim.Native.Nat.{
  ℕ, zero, suc, ◌+◌, ◌*◌, ◌/◌, ◌%◌, ◌^◌, ◌≤◌, ◌<◌, bit_xor, digits, differ, bit_xor-bitwise,
}
use mathlib.Core.Path.{◌≡◌, refl, ap, sym, ◌∙◌}
use mathlib.Core.WellFounded
use native.Mathlib.Nat.{le_refl, pow-suc}
use native.Mathlib.Omega.{arith}
use tyndall.Base.Order.{lt_wf}

abbrev xor_digits : ℕ → ℕ → ℕ → ℕ
xor_digits n a b = digits (λ b. b) differ n a b

xor_digits_fuel : (n m a b : ℕ) → a ≤ n → a ≤ m → xor_digits n a b ≡ xor_digits m a b
xor_digits_fuel zero zero a b p q = refl
xor_digits_fuel zero (suc m) zero b p q = refl
xor_digits_fuel zero (suc m) (suc a) b p q = absurd (omega arith)
xor_digits_fuel (suc n) zero zero b p q = refl
xor_digits_fuel (suc n) zero (suc a) b p q = absurd (omega arith)
xor_digits_fuel (suc n) (suc m) zero b p q = refl
xor_digits_fuel (suc n) (suc m) (suc a) b p q =
    rw (xor_digits_fuel n m (suc a / 2) (b / 2) (omega arith) (omega arith))

differ_digits : (x y : ℕ) → x < 2 → y < 2 → differ x y ≡ (x + y) % 2
differ_digits zero y p q = omega arith
differ_digits (suc zero) zero p q = refl
differ_digits (suc zero) (suc zero) p q = refl
differ_digits (suc zero) (suc (suc y)) p q = absurd (omega arith)
differ_digits (suc (suc x)) y p q = absurd (omega arith)

zero-bit_xor : (b : ℕ) → bit_xor 0 b ≡ b
zero-bit_xor b = bit_xor-bitwise 0 b

pub bit_xor_step : (a b : ℕ) → bit_xor a b ≡ bit_xor (a / 2) (b / 2) * 2 + (a + b) % 2
bit_xor_step zero b = omega (arith, zero-bit_xor b, zero-bit_xor (b / 2))
bit_xor_step (suc a) b = omega (
  arith,
  bit_xor-bitwise (suc a) b,
  bit_xor-bitwise (suc a / 2) (b / 2),
  xor_digits_fuel a (suc a / 2) (suc a / 2) (b / 2) (omega arith) (le_refl _),
  differ_digits (suc a % 2) (b % 2) (omega arith) (omega arith),
)

bit_xor-zero : (a : ℕ) → bit_xor a 0 ≡ a
bit_xor-zero a = WellFounded.induction lt_wf {C = λ m. bit_xor m 0 ≡ m} a step
  where
    step : (n : ℕ) → ((m : ℕ) → m < n → bit_xor m 0 ≡ m) → bit_xor n 0 ≡ n
    step zero ih = refl
    step (suc n) ih = omega (arith, bit_xor_step (suc n) 0, ih (suc n / 2) (omega arith))

bit_xor_self : (a : ℕ) → bit_xor a a ≡ 0
bit_xor_self a = WellFounded.induction lt_wf {C = λ m. bit_xor m m ≡ 0} a step
  where
    step : (n : ℕ) → ((m : ℕ) → m < n → bit_xor m m ≡ 0) → bit_xor n n ≡ 0
    step zero ih = refl
    step (suc n) ih = omega (arith, bit_xor_step (suc n) (suc n), ih (suc n / 2) (omega arith))

pub bit_xor_comm : (a b : ℕ) → bit_xor a b ≡ bit_xor b a
bit_xor_comm a b =
    WellFounded.induction lt_wf {C = λ m. (c : ℕ) → bit_xor m c ≡ bit_xor c m} a step b
  where
    step :
        (n : ℕ)
        → ((m : ℕ) → m < n → (c : ℕ) → bit_xor m c ≡ bit_xor c m)
        → (c : ℕ) → bit_xor n c ≡ bit_xor c n
    step zero ih c = omega (arith, zero-bit_xor c, bit_xor-zero c)
    step (suc n) ih c = omega (
      arith,
      bit_xor_step (suc n) c,
      bit_xor_step c (suc n),
      ih (suc n / 2) (omega arith) (c / 2),
    )

pub bit_xor_cancel : (a c : ℕ) → bit_xor (bit_xor a c) c ≡ a
bit_xor_cancel a c =
    WellFounded.induction lt_wf {C = λ m. (d : ℕ) → bit_xor (bit_xor m d) d ≡ m} a step c
  where
    step :
        (n : ℕ)
        → ((m : ℕ) → m < n → (d : ℕ) → bit_xor (bit_xor m d) d ≡ m)
        → (d : ℕ) → bit_xor (bit_xor n d) d ≡ n
    step zero ih d = rw (zero-bit_xor d) (bit_xor_self d)
    step (suc n) ih d =
        let half_eq : bit_xor (suc n) d / 2 ≡ bit_xor (suc n / 2) (d / 2) =
          omega (arith, bit_xor_step (suc n) d) in
        omega (
          arith,
          bit_xor_step (suc n) d,
          bit_xor_step (bit_xor (suc n) d) d,
          ap (λ (t : ℕ). bit_xor t (d / 2)) half_eq,
          ih (suc n / 2) (omega arith) (d / 2),
        )

-- Exclusive or by one value tells two values apart.
pub bit_xor_inj_left : (a b c : ℕ) → bit_xor a c ≡ bit_xor b c → a ≡ b
bit_xor_inj_left a b c e =
    sym (bit_xor_cancel a c) ∙ ap (λ (t : ℕ). bit_xor t c) e ∙ bit_xor_cancel b c

pub bit_xor_inj_right : (a b c : ℕ) → bit_xor c a ≡ bit_xor c b → a ≡ b
bit_xor_inj_right a b c e = bit_xor_inj_left a b c (bit_xor_comm a c ∙ e ∙ bit_xor_comm c b)

-- Exclusive or of two numbers of `k` digits has `k` digits.
pub bit_xor-lt : (k a b : ℕ) → a < 2 ^ k → b < 2 ^ k → bit_xor a b < 2 ^ k
bit_xor-lt zero a b ha hb =
    let a_zero : a ≡ 0 = omega arith in
    let b_zero : b ≡ 0 = omega arith in rw (a_zero, b_zero) (omega arith)
bit_xor-lt (suc k) a b ha hb = omega (
  arith,
  pow-suc 2 k,
  bit_xor_step a b,
  bit_xor-lt k (a / 2) (b / 2) (omega (arith, pow-suc 2 k)) (omega (arith, pow-suc 2 k)),
)
