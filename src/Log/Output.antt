-- ===== src/Log/Output.antt =====
-- tyndall/log/log.h and log.cpp: what the logging macros print. The fmt library and `printf` are
-- parameters; `none` is an assertion that fails, an exception, or behaviour that C leaves undefined.
pub mod Printf
pub mod Sites
use tyndall.Base.{
  ℕ, Bool, true, false, if◌then◌else◌, ◌==◌, Option, none, some, bind, Bytes, List, [], ◌∷◌, ◌++◌,
  codes, length, ℤ, pos, negsuc,
}
use tyndall.Log.Level.{LogLevel, log_level_to_string, should_log}
use tyndall.Log.Filter.{log_level}

-- The colours of fmt that are used.
pub data Color : Type 0 where
  dark_red : Color
  red : Color
  dark_khaki : Color
  yellow : Color
  light_green : Color
  cyan : Color
  dark_cyan : Color
  dark_violet : Color

pub record Style : Type 0 where
  pub bold : Bool
  pub color : Color

-- `styled` is `fmt::format` of a style and a format without arguments, `decimal` what "{}" makes of an
-- int, and `printf` that of a format alone.
pub record Libraries : Type 0 where
  pub styled : Style → Bytes → Option Bytes
  pub decimal : ℕ → Bytes
  pub printf : Bytes → Option Bytes

-- The switch of `log_level_to_color_string`.
unfoldable pub level_color : LogLevel → Option Color
level_color (pos n) =
    if n == 0
    then some dark_red
    else if n == 1
    then some red
    else if n == 2
    then some dark_khaki
    else if n == 3
    then some yellow
    else if n == 4
    then some light_green
    else if n == 5
    then some cyan
    else if n == 6
    then some dark_cyan
    else none
level_color (negsuc n) = none

-- The text of the tab.
abbrev pub tab : Bytes
tab = 9 ∷ []

-- The category, or the function's name if there is none.
abbrev pub category_or : Bytes → Bytes → Bytes
category_or pretty_function [] = pretty_function
category_or pretty_function (c ∷ category) = c ∷ category

module _ (lib : Libraries) where
  unfoldable pub log_level_to_color_string : LogLevel → Option Bytes
  log_level_to_color_string lvl = bind (level_color lvl) (λ c.
      bind (log_level_to_string lvl) (λ name. lib.styled (record { bold = true; color = c }) name))

  unfoldable pub preamble_of : (level file cat : Bytes) (line : ℕ) → Bytes
  preamble_of level file cat line =
      codes "["
      ++ (level
          ++ (tab
              ++ (file
                  ++ (codes ":"
                      ++ (lib.decimal line ++ (codes " " ++ (cat ++ (codes "]" ++ tab))))))))

  -- What is printed.
  unfoldable pub log_string : Bytes → LogLevel → (cat file : Bytes) (line : ℕ) → Option Bytes
  log_string s lvl cat file line =
      bind (lib.styled (record { bold = false; color = dark_violet }) cat) (λ colored_cat.
        bind (log_level_to_color_string lvl)
          (λ level. lib.printf (preamble_of level file colored_cat line ++ s)))

  -- A place in the source where `log_cat_log` is expanded: its level, file, line and function.
  module _ (lvl : LogLevel) (file : Bytes) (line : ℕ) (pretty_function : Bytes) where
    -- The static `should_log`: initialised when it is reached for the first time.
    unfoldable pub static_should_log :
        Option Bool → (env : Option Bytes) (cat : Bytes) → Option Bool
    static_should_log (some decided) env cat = some decided
    static_should_log none env cat =
        bind (log_level env cat) (λ threshold. some (should_log lvl threshold))

    -- What is behind `if(should_log)`.
    unfoldable pub log_if : Bool → (cat formatted : Bytes) → Option (List Bytes)
    log_if false cat formatted = some []
    log_if true cat formatted =
        bind (log_string formatted lvl cat file line) (λ printed. some (printed ∷ []))

    -- `formatted` is what `fmt::format` makes of the message and its arguments.
    unfoldable pub log_cat_log :
        (decided : Option Bool) (env : Option Bytes) (category formatted : Bytes)
        → Option (List Bytes × Bool)
    log_cat_log decided env category formatted =
        let cat = category_or pretty_function category in
        bind (static_should_log decided env cat)
          (λ decision. bind (log_if decision cat formatted) (λ printed. some (printed, decision)))
