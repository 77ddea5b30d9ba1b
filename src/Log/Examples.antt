-- ===== src/Log/Examples.antt =====
-- tyndall/log at concrete inputs: the examples of README.md and log.h, and the theorems applied.
mod Output
mod Program
use tyndall.Base.{pos}
use tyndall.Base.{Bytes, ◌≢◌, ℕ, true, false, [], ◌∷◌, codes, some, none, ◌≡◌, ◌↔◌, refl, arith}
use tyndall.Log.Level.{
  info, debug, error, invalid, log_level_from_string, log_level_to_string, should_log,
}
use tyndall.Log.Level.Macros.{
  log_info, log_alarm, log_error, log_log_level, log_cat_level, log_cat_level-log_log_level,
}
use tyndall.Log.Level.Laws.{from_string-to_string, from_string_digit, from_string_zero_more}
use tyndall.Log.Glob.{log_glob_match, glob_loop, piece_length, search_piece}
use tyndall.Log.Glob.Pieces.{pieces_loop, log_glob_match-pieces}
use tyndall.Log.Glob.Order.{
  InOrder, log_glob_match_iff, log_glob_match_trailing, log_glob_match_overrun,
}
use tyndall.Log.Filter.{log_level}
use tyndall.Log.Filter.Entries.{log_level_one_char, log_level_override}

non_empty : (c : ℕ) (s : Bytes) → c ∷ s ≢ []
non_empty c s e = cc

test_should_log : should_log info debug ≡ true
unfolding should_log
test_should_log = refl

log_cat_level-log_log_level_example :
    ((log_cat_level log_info ≡ log_log_level log_info) ↔ (log_info ≢ log_alarm))
    × (should_log (log_log_level log_alarm) (pos 3) ≡ true)
    × (should_log (log_cat_level log_error) (pos 0) ≡ false)
    × (should_log (log_cat_level log_alarm) (pos 1) ≡ false)
log_cat_level-log_log_level_example = log_cat_level-log_log_level log_info 3

test_name : log_level_to_string error ≡ some (codes "error")
unfolding log_level_to_string
test_name = refl

from_string-to_string_test : log_level_from_string (codes "debug,cat:trace") ≡ some debug
unfolding log_level_to_string
from_string-to_string_test = from_string-to_string 5 (codes "debug") (codes ",cat:trace") refl

test_digit : log_level_from_string (codes "5") ≡ some debug
test_digit = from_string_digit 5 (omega arith)

test_zero_more : log_level_from_string (codes "0,") ≡ some invalid
test_zero_more = from_string_zero_more b',' [] refl

log_glob_match-pieces_test :
    log_glob_match (codes "my_ca*e*ry:debug") (codes "my_category") 10
    ≡ pieces_loop (codes "my_ca") (codes "e" ∷ codes "ry" ∷ []) (codes "my_category") true
log_glob_match-pieces_test =
    log_glob_match-pieces (codes "my_ca") (codes "e" ∷ codes "ry" ∷ []) (codes ":debug")
      (codes "my_category")
      (
        (omega arith, (omega arith, (omega arith, (omega arith, (omega arith, tt))))),
        ((omega arith, tt), ((omega arith, (omega arith, tt)), tt)),
      )
      (omega arith)

log_glob_match_iff_example :
    (log_glob_match (codes "my_ca*ry:debug") (codes "my_category") 8 ≡ some true)
    ↔ InOrder (codes "my_ca" ∷ codes "ry" ∷ []) (codes "my_category")
log_glob_match_iff_example =
    log_glob_match_iff (codes "my_ca") (codes "ry" ∷ []) (codes ":debug") (codes "my_category")
      (
        (omega arith, (omega arith, (omega arith, (omega arith, (omega arith, tt))))),
        ((omega arith, (omega arith, tt)), tt),
      )
      (non_empty _ _, (non_empty _ _, tt)) (omega arith)

log_glob_match_trailing_test : log_glob_match (codes "net*:debug") (codes "net") 4 ≡ some false
log_glob_match_trailing_test =
    log_glob_match_trailing (codes "net") (codes ":debug")
      (omega arith, (omega arith, (omega arith, tt))) (non_empty _ _) (omega arith)

log_glob_match_overrun_example : log_glob_match (codes "network*x:debug") (codes "net") 9 ≡ none
log_glob_match_overrun_example =
    log_glob_match_overrun (codes "network") (codes "x") [] (codes ":debug") (codes "net")
      (
        (
          omega arith,
          (
            omega arith,
            (omega arith, (omega arith, (omega arith, (omega arith, (omega arith, tt))))),
          ),
        ),
        ((omega arith, tt), tt),
      )
      (omega arith) (omega arith)

test_one_char :
    (log_level none (codes "net") ≡ some info)
    × (log_level (some (codes "1")) (codes "net") ≡ some info)
test_one_char = log_level_one_char b'1' (codes "net")

test_match : log_glob_match (codes "n*t:debug") (codes "net") 3 ≡ some true
unfolding log_glob_match glob_loop piece_length search_piece
test_match = refl

log_level_override_example : log_level (some (codes "error,n*t:debug")) (codes "net") ≡ some debug
unfolding log_level_to_string
log_level_override_example =
    log_level_override (codes "error") (codes "n*t") (codes "debug") (codes "net") 1 5 true refl
      (
        (omega arith, (omega arith, (omega arith, tt))),
        (omega arith, (omega arith, (omega arith, tt))),
      )
      refl test_match
