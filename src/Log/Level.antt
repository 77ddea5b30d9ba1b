-- ===== src/Log/Level.antt =====
-- tyndall/log/log.h and log.cpp: the levels, their names, and the level that a text stands for.
pub mod Laws
pub mod Macros
use tyndall.Base.{
  ℕ, zero, suc, ◌+◌, ◌-◌, ◌^◌, Bool, true, false, not, ◌&&◌, ◌||◌, if◌then◌else◌, ◌==◌, Option,
  none, some, Bytes, codes, length, char_at, starts_with, strtol_int, ℤ, pos, negsuc, eq_ℤ, le_ℤ,
  bind,
}

-- `log_level_t` is an enumeration over `int`: any `int` can stand for a level.
abbrev pub LogLevel : Type 0
LogLevel = ℤ

abbrev pub fatal : LogLevel
fatal = pos 0

abbrev pub error : LogLevel
error = pos 1

abbrev pub alarm : LogLevel
alarm = pos 2

abbrev pub warning : LogLevel
warning = pos 3

abbrev pub info : LogLevel
info = pos 4

abbrev pub debug : LogLevel
debug = pos 5

abbrev pub trace : LogLevel
trace = pos 6

abbrev pub n_levels : ℕ
n_levels = 7

-- `INT_MAX`
abbrev pub invalid : LogLevel
invalid = pos (2 ^ 31 - 1)

abbrev pub log_level_default : LogLevel
log_level_default = info

-- The switch over the enumerators; `none` is the failed assertion.
unfoldable pub log_level_to_string : LogLevel → Option Bytes
log_level_to_string (pos n) =
    if n == 0
    then some (codes "fatal")
    else if n == 1
    then some (codes "error")
    else if n == 2
    then some (codes "alarm")
    else if n == 3
    then some (codes "warning")
    else if n == 4
    then some (codes "info")
    else if n == 5
    then some (codes "debug")
    else if n == 6
    then some (codes "trace")
    else none
log_level_to_string (negsuc n) = none

-- The condition of the loop body at `i`.
unfoldable pub names_level : Bytes → ℕ → Option Bool
names_level string i = bind (log_level_to_string (pos i)) (λ name.
    some (starts_with name string || ((char_at string == b'0' + i) && (length string == 1))))

-- The loop from `i` on, with `rounds` rounds left.
unfoldable pub from_string_loop : ℕ → ℕ → Bytes → LogLevel → Option LogLevel
from_string_loop zero i string ret = some ret
from_string_loop (suc rounds) i string ret = bind (names_level string i) (λ named.
    from_string_loop rounds (i + 1) string (
      if named
      then pos i
      else if not (eq_ℤ (strtol_int string) (pos 0))
      then strtol_int string
      else ret))

unfoldable pub log_level_from_string : Bytes → Option LogLevel
log_level_from_string string = from_string_loop n_levels 0 string invalid

-- `should_log` of `log_cat_log`.
unfoldable pub should_log : LogLevel → LogLevel → Bool
should_log lvl threshold = le_ℤ lvl threshold
