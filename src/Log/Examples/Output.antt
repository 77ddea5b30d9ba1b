-- ===== src/Log/Examples/Output.antt =====
-- The output of the logging macros with a `printf` that stops at what it has no argument for.
use tyndall.Base.{
  ◌∙◌, ℕ, Bool, true, false, not, ◌&&◌, if◌then◌else◌, ◌==◌, ne→==, Option, none, some, bind, Bytes,
  [], ◌∷◌, ◌++◌, codes, Lacks, ◌≡◌, refl, arith,
}
use tyndall.Log.Level.{info, debug, should_log, log_level_to_string}
use tyndall.Log.Filter.{log_level}
use tyndall.Log.Output.{Libraries, level_color, log_level_to_color_string, preamble_of, log_string}
use tyndall.Log.Output.Printf.{Plain, Printf, log_string-Plain}
use tyndall.Log.Output.Sites.{run_site, log_strings, run_site_first}

-- `sign`: the byte before was the first of a conversion.
abbrev pub print_at : (sign : Bool) → Bytes → Option Bytes
print_at true [] = none
print_at false [] = some []
print_at true (c ∷ s) =
    let rest = print_at false s in if c == b'%' then bind rest (λ t. some (b'%' ∷ t)) else none
print_at false (c ∷ s) =
    let conversion = print_at true s in
    let rest = print_at false s in
    if c == 0 then some [] else if c == b'%' then conversion else bind rest (λ t. some (c ∷ t))

abbrev prefixed : Bytes → Option Bytes → Option Bytes
prefixed s none = none
prefixed s (some t) = some (s ++ t)

prefixed_cons :
    (c : ℕ) (s : Bytes) (o : Option Bytes)
    → bind (prefixed s o) (λ t. some (c ∷ t)) ≡ prefixed (c ∷ s) o
prefixed_cons c s none = refl
prefixed_cons c s (some t) = refl

print_at-append : (s t : Bytes) → Plain s → print_at false (s ++ t) ≡ prefixed s (print_at false t)
print_at-append [] t h = none_or_some (print_at false t)
  where
    none_or_some : (o : Option Bytes) → o ≡ prefixed [] o
    none_or_some none = refl
    none_or_some (some u) = refl
print_at-append (c ∷ s) t ((percent, percents), (nul, nuls)) =
    rw (ne→== c 0 nul, ne→== c b'%' percent, print_at-append s t (percents, nuls))
      (prefixed_cons c s (print_at false t))

print_at-Plain : (s : Bytes) → Plain s → print_at false s ≡ some s
print_at-Plain [] h = refl
print_at-Plain (c ∷ s) ((percent, percents), (nul, nuls)) =
    rw (ne→== c 0 nul, ne→== c b'%' percent, print_at-Plain s (percents, nuls)) refl

pub print_at-Printf : Printf (print_at false)
print_at-Printf = record {
  plain = print_at-Plain;
  doubled = λ s t hs ht. print_at-append s (b'%' ∷ b'%' ∷ t) hs ∙ rw (print_at-Plain t ht) refl;
  missing = λ s t hs. print_at-append s (b'%' ∷ b's' ∷ t) hs;
}

abbrev lacks : ℕ → Bytes → Bool
lacks c [] = true
lacks c (d ∷ s) = not (d == c) && lacks c s

lacks-Lacks : (c : ℕ) (s : Bytes) → lacks c s ≡ true → Lacks c s
lacks-Lacks c [] h = tt
lacks-Lacks c (d ∷ s) h = (ground (arith, h), lacks-Lacks c s (ground (arith, h)))

-- No colours, and every line is line 7.
abbrev plain_libraries : Libraries
plain_libraries = record {
  styled = λ style s. some s;
  decimal = λ n. codes "7";
  printf = print_at false;
}

log_string-Plain_example :
    let preamble = preamble_of plain_libraries (codes "info") (codes "f") (codes "c") 7 in
    (log_string plain_libraries (codes "ok") info (codes "c") (codes "f") 7
      ≡ some (preamble ++ codes "ok"))
    × (log_string plain_libraries (codes "ok" ++ (b'%' ∷ b'%' ∷ [])) info (codes "c") (codes "f") 7
        ≡ some (preamble ++ (codes "ok" ++ (b'%' ∷ []))))
    × (log_string plain_libraries (codes "ok" ++ (b'%' ∷ b's' ∷ [])) info (codes "c") (codes "f") 7
        ≡ none)
unfolding log_level_to_color_string level_color log_level_to_string preamble_of
log_string-Plain_example =
    log_string-Plain plain_libraries print_at-Printf info (codes "c") (codes "f") (codes "info")
      (codes "c") 7 (codes "ok") [] refl refl
      (
        lacks-Lacks b'%' (preamble_of plain_libraries (codes "info") (codes "f") (codes "c") 7)
            refl,
        lacks-Lacks 0 (preamble_of plain_libraries (codes "info") (codes "f") (codes "c") 7) refl,
      )
      ((omega arith, (omega arith, tt)), (omega arith, (omega arith, tt))) (tt, tt)

run_site_first_example :
    run_site plain_libraries debug
      (codes "f")
      7
      (codes "main")
      none
      none
      ((codes "net", codes "a") ∷ ([], codes "b") ∷ [])
    ≡ (if should_log debug info
        then log_strings plain_libraries debug
            (codes "f")
            7
            (codes "main")
            ((codes "net", codes "a") ∷ ([], codes "b") ∷ [])
        else some [])
unfolding log_level
run_site_first_example =
    run_site_first plain_libraries debug (codes "f") 7 (codes "main") none (codes "net") (codes "a")
      (([], codes "b") ∷ []) info (refl)
