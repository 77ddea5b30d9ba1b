-- ===== src/Debug/Examples.antt =====
-- The macros of debug.h at a concrete use, and the theorems applied.
use tyndall.Base.{
  ◌++◌, Bool, true, false, Option, none, Bytes, List, [], ◌∷◌, codes, ◌↔◌, ◌≡◌, refl,
}
use tyndall.Debug.{
  Stdio, Site, goes_on, exited, evaluated, debug_f, debug, debug_plain, debug_instant, debug_error,
  debug_error_plain, debug_assert,
}
use tyndall.Debug.Builds.{debug_without, debug_assert_iff}

-- A world is the formats that have been printed.
abbrev print_log : Stdio (List Bytes)
print_log = record {
  fprintf = λ fd format args w. w ++ format ∷ [];
  fflush = λ fd w. w;
  strerror = λ w. codes "Success";
}

abbrev here : Site
here = record { file = codes "god.cpp"; line = codes "93" }

abbrev number_args : List Bytes → List Bytes × List Bytes
number_args w = (codes "2" ∷ [], w)

-- A condition that prints while it is evaluated, and fails.
abbrev printing : List Bytes → Bool × List Bytes
printing w = (false, w ++ codes "kill" ∷ [])

abbrev holding : List Bytes → Bool × List Bytes
holding w = (true, w)

abbrev nothing : List Bytes → Option Bool × List Bytes
nothing w = (none, w)

debug_test :
    debug print_log here true (codes "got signal %d") number_args []
    ≡ (codes "[god.cpp line" ++ 9 ∷ codes "93] got signal %d") ∷ []
unfolding debug debug_f
debug_test = refl

-- With DEBUG the condition is evaluated, and the program exits.
debug_assert_test : (debug_assert print_log here true printing (codes "c") nothing []).0 ≡ exited 1
unfolding debug_assert evaluated
debug_assert_test = refl

debug_without_test :
    (debug print_log here false (codes "%s") number_args [] ≡ [])
    × (debug_plain print_log here false (codes "%s") number_args [] ≡ [])
    × (debug_instant print_log here false (codes "%s") number_args [] ≡ [])
    × (debug_error print_log here false (codes "%s") number_args [] ≡ [])
    × (debug_error_plain print_log here false (codes "%s") number_args [] ≡ [])
    × (debug_assert print_log here false printing (codes "%s") nothing [] ≡ (goes_on, []))
debug_without_test = debug_without print_log here (codes "%s") number_args printing nothing []

debug_assert_iff_test :
    (debug_assert print_log here true holding (codes "c") nothing []
      ≡ debug_assert print_log here false holding (codes "c") nothing [])
    ↔ (holding [] ≡ (true, []))
debug_assert_iff_test = debug_assert_iff print_log here holding (codes "c") nothing []
