-- ===== src/Log/Examples/Program.antt =====
-- examples/log/log.cpp with concrete libraries, and the theorem applied.
use tyndall.Base.{ℕ, ◌+◌, false, arith, Option, none, some, Bytes, [], ◌∷◌, ◌++◌, codes, ◌≡◌, refl}
use tyndall.Log.Level.{info, error, debug, log_level_to_string}
use tyndall.Log.Output.{tab, Libraries, preamble_of, log_level_to_color_string, level_color}
use tyndall.Log.Output.Printf.{Plain, Plain-append}
use tyndall.Log.Examples.Output.{print_at}
use tyndall.Log.Program.{Names, main}
use tyndall.Log.Program.Lines.{Colours}

-- No colours, and numbers of one digit.
abbrev bare_libraries : Libraries
bare_libraries = record {
  styled = λ style s. some s;
  decimal = λ n. (48 + n) ∷ [];
  printf = print_at false;
}

abbrev names : Names
names = record {
  file = codes "log.cpp";
  main = codes "int main()";
  thread = codes "main()::<lambda()>";
  cb_sig = codes "void cb_sig(int)";
}

abbrev name_or : Option Bytes → Bytes
name_or none = []
name_or (some name) = name

preamble_Plain :
    (level file cat : Bytes) (line : ℕ)
    → Plain level
    → Plain file
    → Plain cat
    → Plain (preamble_of bare_libraries level file cat line)
unfolding preamble_of
preamble_Plain level file cat line h hf hc =
    let ending = codes "]" ++ tab in
    let from_cat = cat ++ ending in
    let from_line = (48 + line) ∷ (codes " " ++ from_cat) in
    let from_file = file ++ (codes ":" ++ from_line) in
    let from_level = level ++ (tab ++ from_file) in
    Plain-append (codes "[") from_level (omega arith, omega arith)
      (Plain-append level (tab ++ from_file) h (
        Plain-append tab from_file (omega arith, omega arith)
          (Plain-append file (codes ":" ++ from_line) hf (
            Plain-append (codes ":") from_line (omega arith, omega arith)
              (Plain-append ((48 + line) ∷ []) (codes " " ++ from_cat) (omega arith, omega arith)
                (Plain-append (codes " ") from_cat (omega arith, omega arith)
                  (Plain-append cat ending hc (omega arith, omega arith))))))))

at_level_error :
    (log_level_to_color_string bare_libraries error ≡ some (name_or (log_level_to_string error)))
    × Plain (name_or (log_level_to_string error))
unfolding log_level_to_color_string level_color log_level_to_string
at_level_error = (refl, (omega arith, omega arith))

at_level_info :
    (log_level_to_color_string bare_libraries info ≡ some (name_or (log_level_to_string info)))
    × Plain (name_or (log_level_to_string info))
unfolding log_level_to_color_string level_color log_level_to_string
at_level_info = (refl, (omega arith, omega arith))

at_level_debug :
    (log_level_to_color_string bare_libraries debug ≡ some (name_or (log_level_to_string debug)))
    × Plain (name_or (log_level_to_string debug))
unfolding log_level_to_color_string level_color log_level_to_string
at_level_debug = (refl, (omega arith, omega arith))

abbrev bare_look : Colours bare_libraries names
bare_look = record {
  colored = λ cat. cat;
  level = λ lvl. name_or (log_level_to_string lvl);
  colours = λ cat. refl;
  at_error = at_level_error;
  at_info = at_level_info;
  at_debug = at_level_debug;
  preambles = λ lvl cat line h hc.
      preamble_Plain (name_or (log_level_to_string lvl)) names.file cat line h
        (omega arith, omega arith) hc;
  decimals = λ n. (omega arith, omega arith);
}
