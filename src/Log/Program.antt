-- ===== src/Log/Program.antt =====
-- examples/log/log.cpp: a program that logs from a thread, from `main` and its loop, and from the handler
-- of SIGINT, which ends the loop.
pub mod Rounds
pub mod Lines
use tyndall.Base.{
  ℕ, zero, suc, Bool, true, false, if◌then◌else◌, Option, none, some, bind, Bytes, List, [], ◌∷◌,
  ◌++◌, codes,
}
use tyndall.Log.Level.{LogLevel, info, debug, error}
use tyndall.Log.Output.{Libraries, log_cat_log}

pub record S : Type 0 where
  pub a : ℕ
  pub b : ℕ

-- __FILE__, and __PRETTY_FUNCTION__ of each function, as the compiler writes them.
pub record Names : Type 0 where
  pub file : Bytes
  pub main : Bytes
  pub thread : Bytes
  pub cb_sig : Bytes

-- The static `should_log` of each place in the loop.
pub record Statics : Type 0 where
  pub statement : Option Bool
  pub cat_debug : Option Bool
  pub cat_error : Option Bool
  pub shown : Option Bool

abbrev pub fresh : Statics
fresh = record { statement = none; cat_debug = none; cat_error = none; shown = none }

-- The line feed of the message, and the one of log_cat_log.
abbrev pub line_feeds : Bytes
line_feeds = 10 ∷ 10 ∷ []

abbrev pub my_category : Bytes
my_category = codes "my_category"

module _ (lib : Libraries) (env : Option Bytes) (names : Names) where
  -- `format` of the formatter for S
  unfoldable pub format_s : S → Bytes
  format_s s = lib.decimal s.a ++ 10 ∷ lib.decimal s.b

  -- The log call of the thread, and the one of `main` beside it; both are reached once.
  unfoldable pub thread_log : Option (List Bytes)
  thread_log =
      bind
        (log_cat_log lib debug names.file 46 names.thread none env []
          (codes "hei from thread" ++ line_feeds))
        (λ (printed, decision). some printed)

  unfoldable pub hei_log : Option (List Bytes)
  hei_log =
      bind
        (log_cat_log lib debug names.file 47 names.main none env []
          (codes "hei " ++ (lib.decimal 4 ++ line_feeds)))
        (λ (printed, decision). some printed)

  -- The handler: it prints, and `run` is 0 behind it.
  unfoldable pub cb_sig : (sig : ℕ) → Option (List Bytes)
  cb_sig sig =
      bind
        (log_cat_log lib info names.file 11 names.cb_sig none env []
          (codes "got signal " ++ (lib.decimal sig ++ line_feeds)))
        (λ (printed, decision). some printed)

  -- A round of the loop.
  unfoldable pub main_round : Statics → Option (List Bytes × Statics)
  main_round statics =
      bind
        (log_cat_log lib debug names.file 56 names.main statics.statement env []
          (codes "debug statement" ++ line_feeds))
        (λ (l1, d1).
          bind
            (log_cat_log lib debug names.file 58 names.main statics.cat_debug env my_category
              (codes "CAAAAAAAAAAT" ++ line_feeds))
            (λ (l2, d2).
              bind
                (log_cat_log lib error names.file 59 names.main statics.cat_error env my_category
                  (codes "WRONG CAt " ++ (lib.decimal 5 ++ line_feeds)))
                (λ (l3, d3).
                  bind
                    (log_cat_log lib info names.file 62 names.main statics.shown env []
                      (codes "s: " ++ (format_s (record { a = 1; b = 2 }) ++ line_feeds)))
                    (λ (l4, d4). some (
                      l1 ++ (l2 ++ (l3 ++ l4)),
                      record {
                        statement = some d1;
                        cat_debug = some d2;
                        cat_error = some d3;
                        shown = some d4;
                      },
                    )))))

  unfoldable pub main_loop : (rounds : ℕ) → Statics → Option (List Bytes)
  main_loop zero statics = some []
  main_loop (suc rounds) statics =
      bind (main_round statics)
        (λ (printed, statics'). bind (main_loop rounds statics') (λ rest. some (printed ++ rest)))

  -- What is printed if the signal comes while `main` sleeps behind the last of so many rounds. The thread
  -- prints before `main` does, or behind it, and has ended when the loop begins.
  unfoldable pub main : (thread_first : Bool) (rounds sig : ℕ) → Option (List Bytes)
  main thread_first rounds sig = bind thread_log (λ by_thread. bind hei_log (λ hei.
      bind (main_loop rounds fresh) (λ looped. bind (cb_sig sig) (λ signalled.
        some (
          (if thread_first then by_thread ++ hei else hei ++ by_thread)
          ++ (looped ++ signalled))))))
