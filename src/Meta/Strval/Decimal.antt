-- ===== src/Meta/Strval/Decimal.antt =====
-- `to_strval` against decimal notation, and against what `std::to_string` is documented to return.
use mathlib.Core.List.{foldl, map, foldl-append}
use mathlib.Core.Logic.{ite, dite, if_pos, if_neg}
use mathlib.Core.WellFounded
use mathlib.Core.WellFounded.{Acc, Acc-prop}
use tyndall.Base.{
  ℕ, zero, suc, ◌+◌, ◌-◌, ◌*◌, ◌/◌, ◌%◌, ◌<◌, ◌≤◌, Bytes, List, [], ◌∷◌, ◌++◌, append_assoc, ◌≡◌,
  refl, ◌∙◌, arith, dec_lt, lt_wf, All, All-append,
}
use tyndall.Meta.Strval.{tenth_lt, to_strval_digits, to_strval}

-- `std::to_string` of an unsigned number, as documented: the decimal notation of `%u`.
pub record ToString : Type 0 where
  pub to_string : ℕ → Bytes
  pub one_digit : (n : ℕ) → n < 10 → to_string n ≡ (b'0' + n) ∷ []
  pub more_digits : (n : ℕ) → 10 ≤ n → to_string n ≡ to_string (n / 10) ++ (b'0' + n % 10) ∷ []

-- The number that a text of decimal digits spells.
abbrev pub decimal_value : Bytes → ℕ
decimal_value = foldl (λ n c. n * 10 + (c - b'0')) 0

chars : List ℕ → Bytes
chars = map (λ d. b'0' + d)

digits : ℕ → List ℕ → Bytes
digits n ds = to_strval_digits n (lt_wf.apply n) ds

-- The instance for a remainder that is not 0 inherits from that for a tenth of it.
unwind :
    (n : ℕ) (w : Acc ◌<◌ n) (w' : Acc ◌<◌ (n / 10)) (ds : List ℕ)
    → to_strval_digits n w ds
      ≡ ite (dec_lt 0 n) (to_strval_digits (n / 10) w' ((n % 10) ∷ ds)) (chars ds)
unfolding to_strval_digits chars
unwind n (Acc.intro _ smaller) w' ds = λ i.
    dite (dec_lt 0 n)
      (λ h.
        to_strval_digits (n / 10) (Acc-prop (smaller (n / 10) (tenth_lt h)) w' i) ((n % 10) ∷ ds))
      (λ _. chars ds)

digits_step :
    (n : ℕ) (ds : List ℕ)
    → digits n ds ≡ ite (dec_lt 0 n) (digits (n / 10) ((n % 10) ∷ ds)) (chars ds)
unfolding digits
digits_step n ds = unwind n _ _ ds

digits_pos : (n : ℕ) (ds : List ℕ) → 0 < n → digits n ds ≡ digits (n / 10) ((n % 10) ∷ ds)
digits_pos n ds h = digits_step n ds ∙ if_pos (dec_lt 0 n) h _ _

digits_none : (n : ℕ) (ds : List ℕ) → ¬ (0 < n) → digits n ds ≡ chars ds
digits_none n ds h = digits_step n ds ∙ if_neg (dec_lt 0 n) h _ _

-- The digits pushed so far stand behind those still to come.
digits-append : (n : ℕ) (ds : List ℕ) → digits n ds ≡ digits n [] ++ chars ds
digits-append n ds =
    WellFounded.induction lt_wf {C = λ m. (es : List ℕ) → digits m es ≡ digits m [] ++ chars es} n
      step ds
  where
    step :
        (m : ℕ)
        → ((k : ℕ) → k < m → (es : List ℕ) → digits k es ≡ digits k [] ++ chars es)
        → (es : List ℕ) → digits m es ≡ digits m [] ++ chars es
    step m ih es = elim (dec_lt 0 m) [
      | yes h ↦
          let shorter = ih (m / 10) (omega arith) in
          rw
            (digits_pos m es h, digits_pos m [] h, shorter ((m % 10) ∷ es), shorter ((m % 10) ∷ []))
            (unfold chars in rw append_assoc)
      | no h ↦ rw (digits_none m es h, digits_none m [] h) (unfold chars in refl)
    ]

to_strval-digits : (n : ℕ) → to_strval n ≡ digits n []
unfolding to_strval digits
to_strval-digits n = refl

-- A positive number ends in its last digit, behind the other digits.
pub to_strval_step : (n : ℕ) → 0 < n → to_strval n ≡ to_strval (n / 10) ++ (b'0' + n % 10) ∷ []
to_strval_step n h =
    rw
      (
        to_strval-digits,
        to_strval-digits,
        digits_pos n [] h,
        digits-append (n / 10) ((n % 10) ∷ []),
      )
      (unfold chars in refl)

pub to_strval_zero : to_strval 0 ≡ []
unfolding to_strval
to_strval_zero = refl

decimal_value-snoc :
    (s : Bytes) (c : ℕ) → decimal_value (s ++ c ∷ []) ≡ decimal_value s * 10 + (c - b'0')
decimal_value-snoc s c = rw (foldl-append)

abbrev pub IsDigit : ℕ → Type 0
IsDigit c = (b'0' ≤ c) × (c ≤ b'9')

-- Every number is read back from its strval, which holds decimal digits alone.
pub decimal_value-to_strval :
    (n : ℕ) → (decimal_value (to_strval n) ≡ n) × All IsDigit (to_strval n)
decimal_value-to_strval n =
    WellFounded.induction lt_wf
      {C = λ m. (decimal_value (to_strval m) ≡ m) × All IsDigit (to_strval m)} n step
  where
    step :
        (m : ℕ)
        → ((k : ℕ) → k < m → (decimal_value (to_strval k) ≡ k) × All IsDigit (to_strval k))
        → (decimal_value (to_strval m) ≡ m) × All IsDigit (to_strval m)
    step zero ih = rw to_strval_zero (refl, tt)
    step (suc m) ih =
        let (value, are_digits) = ih (suc m / 10) (omega arith) in
        rw (to_strval_step (suc m) (omega arith)) (
          rw (decimal_value-snoc (to_strval (suc m / 10)) (b'0' + suc m % 10), value) (omega arith),
          All-append IsDigit (to_strval (suc m / 10)) _ are_digits (omega arith),
        )

-- For every number but 0 the compile time digits are those of `std::to_string`.
pub to_strval-to_string : (std : ToString) (n : ℕ) → 0 < n → to_strval n ≡ std.to_string n
to_strval-to_string std n =
    WellFounded.induction lt_wf {C = λ m. 0 < m → to_strval m ≡ std.to_string m} n step
  where
    step :
        (m : ℕ)
        → ((k : ℕ) → k < m → 0 < k → to_strval k ≡ std.to_string k)
        → 0 < m
        → to_strval m ≡ std.to_string m
    step m ih h = elim (dec_lt m 10) [
      | yes small ↦
          rw
            (
              to_strval_step m h,
              (let e : m / 10 ≡ 0 = omega arith in e),
              std.one_digit m small,
              to_strval_zero,
            )
            (let e : m % 10 ≡ m = omega arith in rw e)
      | no large ↦ rw (
        to_strval_step m h,
        std.more_digits m (omega arith),
        ih (m / 10) (omega arith) (omega arith),
      )
    ]
