-- ===== src/Meta/Examples.antt =====
-- tyndall/meta at concrete inputs: the tests of tests/meta/strval.cpp, and the theorems applied.
use tyndall.Base.{
  ℕ, bind, none, ◌+◌, ◌-◌, leb, if◌then◌else◌, true, [], ◌∷◌, ◌++◌, codes, length, Bytes, some, ◌≡◌,
  ◌≢◌, ◌↔◌, refl, arith, All,
}
use mathlib.Core.List.{foldl}
use tyndall.Meta.Macro.{m_eval, m_dec, m_inc, m_not_equal, m_range, m_range_with_comma}
use tyndall.Meta.Macro.Arithmetic.{m_dec-m_inc, m_not_equal_iff, numbers}
use tyndall.Meta.Macro.Text.{truth, not_equal_text, not_equal_text-m_not_equal}
use tyndall.Meta.Macro.Range.{
  m_range_lem, m_range-m_eval, m_range_backwards, m_range_with_comma_lem, separated,
}
use tyndall.Meta.Hash.{offset_basis, hash_fnv1a_32}
use tyndall.Meta.Hash.Fold.{fnv_round, hash-foldl}
use tyndall.Meta.Hash.Differ.{hash_differ}
use tyndall.Meta.Strval.{
  append, occurrences, replace, remove_leading, get, set_data, is_same, to_strval,
}
use tyndall.Meta.Strval.Laws.{
  occurrences-replace, remove_leading_run, remove_leading_idem, is_same_iff, set_data_lem,
}
use tyndall.Meta.Strval.Decimal.{
  IsDigit, decimal_value, decimal_value-to_strval, to_strval-to_string,
}
use tyndall.Meta.Strval.Printer.{print, printer}

test_append : append (codes "hei") (codes "du") ≡ codes "heidu"
unfolding append
test_append = refl

test_occurrences : occurrences (codes "hei din sei") b'i' ≡ 3
unfolding occurrences
test_occurrences = refl

test_replace : replace b'_' b'-' (codes "a_b_c") ≡ codes "a-b-c"
unfolding replace
test_replace = refl

test_remove_leading : remove_leading b'/' (codes "///hei") ≡ codes "hei"
unfolding remove_leading
test_remove_leading = refl

test_to_strval : to_strval 42 ≡ codes "42"
unfolding to_strval
test_to_strval = refl

test_hash : hash_fnv1a_32 true (codes "a") ≡ 0xe40c292c
unfolding hash_fnv1a_32
test_hash = refl

hash-foldl_test :
    hash_fnv1a_32 true (codes "hei") ≡ foldl (fnv_round true) offset_basis (codes "hei")
hash-foldl_test = hash-foldl true (codes "hei")

hash_differ_example : hash_fnv1a_32 true (codes "my/topic") ≢ hash_fnv1a_32 true (codes "my_topic")
hash_differ_example =
    hash_differ true (codes "my") (codes "topic") b'/' b'_' (omega arith) (omega arith)
      (omega arith) (omega arith)

occurrences-replace_test :
    (occurrences (replace b'i' b'y' (codes "hei din sei")) b'i' ≡ 0)
    × (occurrences (replace b'i' b'y' (codes "hei din sei")) b'y'
        ≡ occurrences (codes "hei din sei") b'y' + occurrences (codes "hei din sei") b'i')
    × (occurrences (replace b'i' b'y' (codes "hei din sei")) b'e'
        ≡ occurrences (codes "hei din sei") b'e')
occurrences-replace_test =
    occurrences-replace b'i' b'y' b'e' (codes "hei din sei") (omega arith) (omega arith)
      (omega arith)

remove_leading_run_test :
    (run : Bytes) × (occurrences run b'/' ≡ length run)
    × (codes "//a/b" ≡ run ++ remove_leading b'/' (codes "//a/b"))
    × (get 0 (remove_leading b'/' (codes "//a/b")) ≢ some b'/')
remove_leading_run_test = remove_leading_run b'/' (codes "//a/b")

test_remove_leading_idem :
    (remove_leading b'/' (remove_leading b'/' (codes "/a")) ≡ remove_leading b'/' (codes "/a"))
    × (remove_leading b'/' (codes "//a") ≡ remove_leading b'/' (codes "/a"))
test_remove_leading_idem = remove_leading_idem b'/' (codes "/a")

test_is_same : (is_same (codes "hei") (codes "hei") ≡ true) ↔ (codes "hei" ≡ codes "hei")
test_is_same = is_same_iff (codes "hei") (codes "hei")

set_data_lem_test : set_data (codes "fij") (0 ∷ 0 ∷ 0 ∷ 9 ∷ []) ≡ codes "fij" ++ 9 ∷ []
set_data_lem_test = set_data_lem (codes "fij") (0 ∷ 0 ∷ 0 ∷ []) (9 ∷ []) refl

decimal_value-to_strval_test :
    (decimal_value (to_strval 1070) ≡ 1070) × All IsDigit (to_strval 1070)
decimal_value-to_strval_test = decimal_value-to_strval 1070

to_strval-to_string_test : to_strval 42 ≡ print 42
unfolding printer
to_strval-to_string_test = to_strval-to_string printer 42 (omega arith)

m_dec-m_inc_test : (bind (m_inc 30) m_dec ≡ some 30) × (bind (m_dec 31) m_inc ≡ some 31)
m_dec-m_inc_test = m_dec-m_inc 30 (omega arith)

test_m_not_equal : (m_not_equal 3 31 ≡ true) ↔ (◌≢◌ {A = ℕ} 3 31)
test_m_not_equal = m_not_equal_iff 3 31 (omega arith) (omega arith)

m_range_lem_test : m_range 31 1 31 ≡ some (numbers 1 30)
m_range_lem_test = m_range_lem 30 1 30 (omega arith) (omega arith)

m_range-m_eval_example :
    m_range m_eval 1 31 ≡ (if leb 1 31 then some (numbers 1 (31 - 1)) else none)
m_range-m_eval_example = m_range-m_eval 1 31 (omega arith) (omega arith)

not_equal_text-m_not_equal_example : not_equal_text 200 31 ≡ some (truth (m_not_equal 200 31))
not_equal_text-m_not_equal_example = not_equal_text-m_not_equal 200 31

m_range_backwards_test : m_range 100 3 1 ≡ none
m_range_backwards_test = m_range_backwards 100 3 1 (omega arith) (omega arith)

m_range_with_comma_lem_test : m_range_with_comma 4 0 3 ≡ some (separated 0 3)
m_range_with_comma_lem_test = m_range_with_comma_lem 3 0 3 (omega arith) (omega arith)
