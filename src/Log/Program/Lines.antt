-- ===== src/Log/Program/Lines.antt =====
-- The lines that examples/log/log.cpp prints.
use tyndall.Base.{ℕ, false, Option, some, Bytes, ◌++◌, ◌≡◌}
use tyndall.Log.Level.{LogLevel, info, debug, error}
use tyndall.Log.Output.{Libraries, dark_violet, log_level_to_color_string, preamble_of}
use tyndall.Log.Output.Printf.{Plain, Printf}
use tyndall.Log.Program.{Names}
use tyndall.Log.Program.Rounds.{PlainNames}

-- The library colours categories and the levels of the program, and nothing that it prints in front of a
-- message has a "%".
pub record Colours (lib : Libraries) (names : Names) : Type 0 where
  pub colored : Bytes → Bytes
  pub level : LogLevel → Bytes
  pub colours :
      (cat : Bytes)
      → lib.styled (record { bold = false; color = dark_violet }) cat ≡ some (colored cat)
  pub at_error : (log_level_to_color_string lib error ≡ some (level error)) × Plain (level error)
  pub at_info : (log_level_to_color_string lib info ≡ some (level info)) × Plain (level info)
  pub at_debug : (log_level_to_color_string lib debug ≡ some (level debug)) × Plain (level debug)
  pub preambles :
      (lvl : LogLevel) (cat : Bytes) (line : ℕ)
      → Plain (level lvl)
      → Plain cat
      → Plain (preamble_of lib (level lvl) names.file (colored cat) line)
  pub decimals : (n : ℕ) → Plain (lib.decimal n)

module _ (lib : Libraries) (env : Option Bytes) (names : Names) (c : Printf lib.printf)
    (look : Colours lib names) (plain_names : PlainNames names) where
  -- A line: the preamble, and the message behind it.
  abbrev pub line_of : Bytes → LogLevel → Bytes → ℕ → Bytes
  line_of s lvl cat line = preamble_of lib (look.level lvl) names.file (look.colored cat) line ++ s
