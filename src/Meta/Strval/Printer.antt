-- ===== src/Meta/Strval/Printer.antt =====
-- A function that prints as `std::to_string` is documented to: what is assumed of it can be met.
use tyndall.Base.{
  ℕ, ◌+◌, ◌/◌, ◌%◌, ◌<◌, ◌≤◌, [], ◌∷◌, ◌++◌, Bytes, if◌then◌else◌, ◌==◌, ne→==, ◌≡◌, refl, arith,
  Bool-cases, inl, inr, ==→eq, ◌≢◌,
}
use tyndall.Meta.Strval.{to_strval}
use tyndall.Meta.Strval.Decimal.{ToString, to_strval_step, to_strval_zero}

unfoldable pub print : ℕ → Bytes
print n = if n == 0 then b'0' ∷ [] else to_strval n

print_positive : (n : ℕ) → n ≢ 0 → print n ≡ to_strval n
unfolding print
print_positive n h = rw (ne→== n 0 h)

pub print_digit : (n : ℕ) → n < 10 → print n ≡ (b'0' + n) ∷ []
print_digit n h = elim (Bool-cases (n == 0)) [
  | inl e ↦ let zero_n : n ≡ 0 = ==→eq n 0 e in rw zero_n (unfold print in refl)
  | inr e ↦
      let tenth : n / 10 ≡ 0 = omega arith in
      let unit : n % 10 ≡ n = omega arith in
      rw (
        print_positive n (ground arith),
        to_strval_step n (ground arith),
        tenth,
        unit,
        to_strval_zero,
      )
]

pub print_more : (n : ℕ) → 10 ≤ n → print n ≡ print (n / 10) ++ (b'0' + n % 10) ∷ []
print_more n h = rw (
  print_positive n (omega arith),
  print_positive (n / 10) (omega arith),
  to_strval_step n (omega arith),
)

unfoldable pub printer : ToString
printer = record { to_string = print; one_digit = print_digit; more_digits = print_more }
