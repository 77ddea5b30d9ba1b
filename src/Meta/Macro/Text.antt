-- ===== src/Meta/Macro/Text.antt =====
-- tyndall/meta/macro.h: the macros below M_NOT_EQUAL, on the texts that they take and leave.
use tyndall.Base.{
  ℕ, zero, suc, Bool, true, false, not, ◌&&◌, if◌then◌else◌, ◌==◌, Option, none, some, bind, List,
  [], ◌∷◌, ◌++◌, ◌≡◌, refl, Bool-cases, inl, inr,
}
use tyndall.Meta.MacroTables.{compare_table}
use tyndall.Meta.Macro.{contains, m_is_comparable, m_primitive_compare, m_not_equal}

-- The names that a number is pasted to.
pub data Prefix : Type 0 where
  m_if_ : Prefix
  m_bitand_ : Prefix
  m_compare_ : Prefix

-- A token of a text. A parenthesis is one token, since no macro below looks into it; `pasted p n` is the
-- name that `p ## n` makes.
pub data Piece : Type 0 where
  parenthesis : Piece
  comma : Piece
  tilde : Piece
  number : ℕ → Piece
  prefix : Prefix → Piece
  pasted : Prefix → ℕ → Piece
  m_is_paren_probe : Piece
  primitive_compare : Piece
  m_eat : Piece

abbrev pub Text : Type 0
Text = List Piece

-- The arguments between the commas of a text, without the first piece of text `first`.
abbrev pub arguments : (first : Text) → Text → List Text
arguments first [] = first ∷ []
arguments first (comma ∷ text) = first ∷ arguments [] text
arguments first (parenthesis ∷ text) = arguments (first ++ parenthesis ∷ []) text
arguments first (tilde ∷ text) = arguments (first ++ tilde ∷ []) text
arguments first (number n ∷ text) = arguments (first ++ number n ∷ []) text
arguments first (prefix p ∷ text) = arguments (first ++ prefix p ∷ []) text
arguments first (pasted p n ∷ text) = arguments (first ++ pasted p n ∷ []) text
arguments first (m_is_paren_probe ∷ text) = arguments (first ++ m_is_paren_probe ∷ []) text
arguments first (primitive_compare ∷ text) = arguments (first ++ primitive_compare ∷ []) text
arguments first (m_eat ∷ text) = arguments (first ++ m_eat ∷ []) text

-- M_CHECK_N(x, n, ...)
unfoldable pub m_check_n : List Text → Option Text
m_check_n [] = none
m_check_n (x ∷ []) = none
m_check_n (x ∷ n ∷ args) = some n

unfoldable pub m_check : Text → Option Text
m_check text = m_check_n (arguments [] (text ++ comma ∷ number 0 ∷ comma ∷ []))

unfoldable pub m_probe : Text → Text
m_probe x = x ++ comma ∷ number 1 ∷ comma ∷ []

-- `M_IS_PAREN_PROBE x`: a call if the text begins with a parenthesis.
unfoldable pub is_paren_probe : Text → Text
is_paren_probe (parenthesis ∷ text) = m_probe (tilde ∷ []) ++ text
is_paren_probe text = m_is_paren_probe ∷ text

unfoldable pub m_is_paren : Text → Option Text
m_is_paren x = m_check (is_paren_probe x)

-- M_CAT: `a b` for a parenthesis, else `a ## b`; only numbers are pasted.
unfoldable pub m_cat : Prefix → Text → Option Text
m_cat a (parenthesis ∷ b) = some (prefix a ∷ parenthesis ∷ b)
m_cat a (number n ∷ b) = some (pasted a n ∷ b)
m_cat a b = none

-- M_IF_1 and M_IF_0 on their arguments; the second gives all arguments but the first.
unfoldable pub m_if_number : ℕ → List Text → Option Text
m_if_number (suc zero) (then' ∷ args) = some then'
m_if_number zero (then' ∷ else' ∷ []) = some else'
m_if_number n args = none

abbrev pub if_pasted : List Text → Text → Option Text
if_pasted args (pasted m_if_ n ∷ []) = m_if_number n args
if_pasted args text = none

-- M_IF(value)(args)
unfoldable pub m_if : Text → List Text → Option Text
m_if value args = bind (m_cat m_if_ value) (if_pasted args)

-- M_BITAND(x)(y)
unfoldable pub m_bitand : Text → Text → Option Text
m_bitand (number zero ∷ []) y = some (number 0 ∷ [])
m_bitand (number (suc zero) ∷ []) y = some y
m_bitand x y = none

abbrev pub is_disabled : Option ℕ → ℕ → Bool
is_disabled none n = false
is_disabled (some m) n = m == n

-- `M_COMPARE_n (())`, where the macro M_COMPARE_m for `disabled` m is being expanded.
unfoldable pub expand_compare : (disabled : Option ℕ) → ℕ → Text
expand_compare disabled n =
    if contains compare_table n && not (is_disabled disabled n)
    then parenthesis ∷ []
    else pasted m_compare_ n ∷ parenthesis ∷ []

unfoldable pub is_comparable_text : ℕ → Option Text
is_comparable_text x = m_is_paren (expand_compare none x)

-- `M_COMPARE_x (M_COMPARE_y) (())` is `M_COMPARE_y (())` inside the expansion of M_COMPARE_x.
unfoldable pub primitive_compare_text : (x y : ℕ) → Option Text
primitive_compare_text x y = m_is_paren (
    if contains compare_table x
    then expand_compare (some x) y
    else pasted m_compare_ x ∷ parenthesis ∷ parenthesis ∷ [])

-- What M_IF left, in front of `(x, y)`.
unfoldable pub call_chosen : (x y : ℕ) → Text → Option Text
call_chosen x y (primitive_compare ∷ []) = primitive_compare_text x y
call_chosen x y (number n ∷ m_eat ∷ []) = some (number n ∷ [])
call_chosen x y text = none

unfoldable pub not_equal_text : (x y : ℕ) → Option Text
not_equal_text x y = bind (is_comparable_text x) (λ cx. bind (is_comparable_text y) (λ cy.
    bind (m_bitand cx cy) (λ both.
      bind (m_if both ((primitive_compare ∷ []) ∷ (number 1 ∷ m_eat ∷ []) ∷ []))
        (call_chosen x y))))

-- The text of a test.
abbrev pub truth : Bool → Text
truth b = number (if b then 1 else 0) ∷ []

is_comparable_text_lem : (x : ℕ) → is_comparable_text x ≡ some (truth (m_is_comparable x))
unfolding is_comparable_text m_is_paren is_paren_probe m_probe m_check m_check_n expand_compare
    m_is_comparable
is_comparable_text_lem x = elim (Bool-cases (contains compare_table x)) [
  | inl e ↦ rw (e) refl
  | inr e ↦ rw (e) refl
]

primitive_compare_text_lem :
    (x y : ℕ)
    → m_is_comparable x ≡ true
    → m_is_comparable y ≡ true
    → primitive_compare_text x y ≡ some (truth (m_primitive_compare x y))
unfolding primitive_compare_text m_is_paren is_paren_probe m_probe m_check m_check_n expand_compare
    m_is_comparable m_primitive_compare
primitive_compare_text_lem x y ex ey = elim (Bool-cases (x == y)) [
  | inl e ↦ rw (ex, ey, e) refl
  | inr e ↦ rw (ex, ey, e) refl
]

-- The text of M_NOT_EQUAL(x, y) expands to 1 or 0, for any two numbers, also those that the tables do
-- not have: by M_IS_PAREN, M_CHECK, M_PROBE, M_BITAND and M_IF it is what `m_not_equal` computes.
pub not_equal_text-m_not_equal : (x y : ℕ) → not_equal_text x y ≡ some (truth (m_not_equal x y))
unfolding not_equal_text m_bitand m_if m_cat m_if_number call_chosen m_not_equal
not_equal_text-m_not_equal x y =
    rw (is_comparable_text_lem x, is_comparable_text_lem y)
      (elim (Bool-cases (m_is_comparable x)) [
        | inl ex ↦ elim (Bool-cases (m_is_comparable y)) [
          | inl ey ↦ rw (ex, ey) (primitive_compare_text_lem x y ex ey)
          | inr ey ↦ rw (ex, ey) refl
        ]
        | inr ex ↦ rw (ex) refl
      ])
