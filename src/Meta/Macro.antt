-- ===== src/Meta/Macro.antt =====
-- tyndall/meta/macro.h: arithmetic and loops of the preprocessor on the number tokens 0 to 127.
-- `none` stands for tokens that no macro takes apart, a compile error where they are used.
pub mod Arithmetic
pub mod Range
pub mod Text
use tyndall.Base.{
  ℕ, zero, suc, ◌+◌, Bool, true, false, not, ◌&&◌, ◌||◌, if◌then◌else◌, ◌==◌, Option, none, some,
  bind, List, [], ◌∷◌, ◌++◌,
}
use tyndall.Meta.MacroTables.{dec_table, inc_table, compare_table}

-- The macro that a name `prefix ## n` stands for.
abbrev pub look_up : List (ℕ × ℕ) → ℕ → Option ℕ
look_up [] n = none
look_up ((name, text) ∷ table) n =
    let later = look_up table n in if name == n then some text else later

abbrev pub contains : List ℕ → ℕ → Bool
contains [] n = false
contains (m ∷ ms) n = m == n || contains ms n

unfoldable pub m_dec : ℕ → Option ℕ
m_dec n = look_up dec_table n

unfoldable pub m_inc : ℕ → Option ℕ
m_inc n = look_up inc_table n

-- M_IS_COMPARABLE(x): `M_COMPARE_x (())` is a parenthesis if there is such a macro.
unfoldable pub m_is_comparable : ℕ → Bool
m_is_comparable x = contains compare_table x

-- M_PRIMITIVE_COMPARE(x, y): `M_COMPARE_y (())` is expanded while `M_COMPARE_x` is, so it stays as
-- it is if the two are one macro; otherwise it becomes a parenthesis.
unfoldable pub m_primitive_compare : ℕ → ℕ → Bool
m_primitive_compare x y = not (x == y)

unfoldable pub m_not_equal : ℕ → ℕ → Bool
m_not_equal x y = if m_is_comparable x && m_is_comparable y then m_primitive_compare x y else true

-- How often M_EVAL_k scans its text; 0 is the text by itself. An argument is scanned before it is put
-- in, and what comes out with the rest: the inner of two calls is scanned as the argument of the outer.
unfoldable pub m_eval_scans : (k : ℕ) → ℕ
m_eval_scans zero = 1
m_eval_scans (suc k) = m_eval_scans k + m_eval_scans k

-- M_EVAL, which scans its text once more. A scan expands M_RANGE_INDIRECT () once, since the text that
-- comes from it is obstructed until the next scan.
unfoldable pub m_eval : ℕ
unfolding m_eval_scans
m_eval = suc (m_eval_scans 8)

-- M_RANGE(macro, start, end): the arguments of `macro`, in the order of the text. A round is one
-- expansion of M_RANGE; none too if M_EVAL gives too few rounds.
unfoldable pub m_range : ℕ → ℕ → ℕ → Option (List ℕ)
m_range zero start end = none
m_range (suc rounds) start end =
    let again = λ (before : ℕ). m_range rounds start before in
    if m_not_equal start end
    then bind (m_dec end) (λ before. bind (again before) (λ items. some (items ++ before ∷ [])))
    else some []

-- What M_RANGE_WITH_COMMA writes: an expansion of `macro`, or a comma.
pub data Token : Type 0 where
  item : ℕ → Token
  comma : Token

unfoldable pub m_range_with_comma : ℕ → ℕ → ℕ → Option (List Token)
m_range_with_comma zero start end = none
m_range_with_comma (suc rounds) start end =
    let again = λ (before : ℕ). m_range_with_comma rounds start before in
    if m_not_equal start end
    then bind (m_dec end) (λ before. bind (again before) (λ tokens.
      some (tokens ++ ((if m_not_equal start before then comma ∷ [] else []) ++ item before ∷ []))))
    else some []
