-- ===== src/Log/Program/Rounds.antt =====
-- The rounds of examples/log/log.cpp, where each of its log calls prints what it is to print.
use tyndall.Base.{
  ◌⊎◌, ℕ, zero, suc, Bool, true, false, inl, inr, if◌then◌else◌, Option, none, some, Bytes, List,
  [], ◌∷◌, ◌++◌, codes, ◌≡◌, refl, arith,
}
use tyndall.Log.Level.{LogLevel, info, debug, error, should_log}
use tyndall.Log.Filter.{log_level}
use tyndall.Log.Output.{Libraries, category_or, log_string, static_should_log, log_if, log_cat_log}
use tyndall.Log.Output.Printf.{Plain, Plain-append}
use tyndall.Log.Program.{
  Names, Statics, fresh, line_feeds, my_category, format_s, thread_log, hei_log, cb_sig, main_round,
  main_loop, main,
}

abbrev pub if_logged : Bool → Bytes → List Bytes
if_logged logged line = if logged then line ∷ [] else []

abbrev statement_text : Bytes
statement_text = codes "debug statement" ++ line_feeds

abbrev pub thread_text : Bytes
thread_text = codes "hei from thread" ++ line_feeds

abbrev cat_text : Bytes
cat_text = codes "CAAAAAAAAAAT" ++ line_feeds

-- The statics that have not been decided, or in agreement with a threshold.
abbrev Undecided : Option Bool → Bool → Type 0
Undecided decided decision = (decided ≡ none) ⊎ (decided ≡ some decision)

log_if_lem :
    (lib : Libraries) (lvl : LogLevel) (file : Bytes) (line : ℕ) (pretty_function : Bytes)
    (decision : Bool) (cat formatted printed : Bytes)
    → log_string lib formatted lvl cat file line ≡ some printed
    → log_if lib lvl file line pretty_function decision cat formatted
      ≡ some (if_logged decision printed)
unfolding log_if
log_if_lem lib lvl file line pretty_function true cat formatted printed prints = rw (prints) refl
log_if_lem lib lvl file line pretty_function false cat formatted printed prints = refl

log_cat_log_lem :
    (lib : Libraries) (lvl : LogLevel) (file : Bytes) (line : ℕ) (pretty_function : Bytes)
    (decided : Option Bool) (env : Option Bytes) (category formatted printed : Bytes)
    (threshold : LogLevel)
    → log_level env (category_or pretty_function category) ≡ some threshold
    → log_string lib formatted lvl (category_or pretty_function category) file line ≡ some printed
    → Undecided decided (should_log lvl threshold)
    → log_cat_log lib lvl file line pretty_function decided env category formatted
      ≡ some (if_logged (should_log lvl threshold) printed, should_log lvl threshold)
unfolding log_cat_log static_should_log
log_cat_log_lem lib lvl file line pretty_function decided env category formatted printed threshold
      at_level prints (inl e) =
    rw
      (
        e,
        at_level,
        log_if_lem lib lvl file line pretty_function (should_log lvl threshold)
            (category_or pretty_function category) formatted printed prints,
      )
      refl
log_cat_log_lem lib lvl file line pretty_function decided env category formatted printed threshold
      at_level prints (inr e) =
    rw
      (
        e,
        log_if_lem lib lvl file line pretty_function (should_log lvl threshold)
            (category_or pretty_function category) formatted printed prints,
      )
      refl

abbrev pub repeated {ℓ} : {A : Type ℓ} → ℕ → List A → List A
repeated zero xs = []
repeated (suc n) xs = xs ++ repeated n xs

-- The names of the functions have no "%".
pub record PlainNames (names : Names) : Type 0 where
  pub main : Plain names.main
  pub thread : Plain names.thread
  pub cb_sig : Plain names.cb_sig

module _ (lib : Libraries) (env : Option Bytes) (names : Names)
    (printed : Bytes → LogLevel → Bytes → ℕ → Bytes) (tm tc : LogLevel) where
  abbrev wrong_cat : Bytes
  wrong_cat = codes "WRONG CAt " ++ (lib.decimal 5 ++ line_feeds)

  abbrev s_text : Bytes
  s_text = codes "s: " ++ ((lib.decimal 1 ++ 10 ∷ lib.decimal 2) ++ line_feeds)

  abbrev hei_text : Bytes
  hei_text = codes "hei " ++ (lib.decimal 4 ++ line_feeds)

  abbrev signal_text : ℕ → Bytes
  signal_text sig = codes "got signal " ++ (lib.decimal sig ++ line_feeds)

  -- What a round prints, for the levels of `main` and of my_category.
  abbrev pub round_lines : List Bytes
  round_lines =
      if_logged (should_log debug tm) (printed statement_text debug names.main 56)
      ++ (if_logged (should_log debug tc) (printed cat_text debug my_category 58)
          ++ (if_logged (should_log error tc) (printed wrong_cat error my_category 59)
              ++ if_logged (should_log info tm) (printed s_text info names.main 62)))

  Agrees : Statics → Type 0
  Agrees statics =
      Undecided statics.statement (should_log debug tm)
      × Undecided statics.cat_debug (should_log debug tc)
      × Undecided statics.cat_error (should_log error tc)
      × Undecided statics.shown (should_log info tm)

  abbrev decided_statics : Statics
  decided_statics = record {
    statement = some (should_log debug tm);
    cat_debug = some (should_log debug tc);
    cat_error = some (should_log error tc);
    shown = some (should_log info tm);
  }

  abbrev pub Printing : LogLevel → Type 0
  Printing lvl =
      (s cat : Bytes) (line : ℕ)
      → Plain s
      → Plain cat
      → log_string lib s lvl cat names.file line ≡ some (printed s lvl cat line)

  module _ (at_main : log_level env names.main ≡ some tm)
      (at_cat : log_level env my_category ≡ some tc) (prints_error : Printing error)
      (prints_info : Printing info) (prints_debug : Printing debug)
      (decimals : (n : ℕ) → Plain (lib.decimal n)) (plain_names : PlainNames names) where
    wrong_cat_Plain : Plain wrong_cat
    wrong_cat_Plain =
        Plain-append (codes "WRONG CAt ") (lib.decimal 5 ++ line_feeds) (omega arith, omega arith)
          (Plain-append (lib.decimal 5) line_feeds (decimals 5) (omega arith, omega arith))

    s_text_Plain : Plain s_text
    s_text_Plain =
        Plain-append (codes "s: ") ((lib.decimal 1 ++ 10 ∷ lib.decimal 2) ++ line_feeds)
          (omega arith, omega arith)
          (Plain-append (lib.decimal 1 ++ 10 ∷ lib.decimal 2) line_feeds
            (Plain-append (lib.decimal 1) (10 ∷ lib.decimal 2) (decimals 1)
              ((omega arith, (decimals 2).0), (omega arith, (decimals 2).1)))
            (omega arith, omega arith))

    hei_text_Plain : Plain hei_text
    hei_text_Plain =
        Plain-append (codes "hei ") (lib.decimal 4 ++ line_feeds) (omega arith, omega arith)
          (Plain-append (lib.decimal 4) line_feeds (decimals 4) (omega arith, omega arith))

    signal_text_Plain : (sig : ℕ) → Plain (signal_text sig)
    signal_text_Plain sig =
        Plain-append (codes "got signal ") (lib.decimal sig ++ line_feeds)
          (omega arith, omega arith)
          (Plain-append (lib.decimal sig) line_feeds (decimals sig) (omega arith, omega arith))

    main_round_lem :
        (statics : Statics)
        → Agrees statics
        → main_round lib env names statics ≡ some (round_lines, decided_statics)
    unfolding main_round format_s Agrees
    main_round_lem statics (u1, u2, u3, u4) =
        rw
          (
            log_cat_log_lem lib debug names.file 56 names.main statics.statement env []
                statement_text (printed statement_text debug names.main 56) tm at_main
                (prints_debug statement_text names.main 56 (omega arith, omega arith)
                  plain_names.main)
                u1,
            log_cat_log_lem lib debug names.file 58 names.main statics.cat_debug env my_category
                cat_text (printed cat_text debug my_category 58) tc at_cat
                (prints_debug cat_text my_category 58 (omega arith, omega arith)
                  (omega arith, omega arith))
                u2,
            log_cat_log_lem lib error names.file 59 names.main statics.cat_error env my_category
                wrong_cat (printed wrong_cat error my_category 59) tc at_cat
                (prints_error wrong_cat my_category 59 wrong_cat_Plain (omega arith, omega arith))
                u3,
            log_cat_log_lem lib info names.file 62 names.main statics.shown env [] s_text
                (printed s_text info names.main 62) tm at_main
                (prints_info s_text names.main 62 s_text_Plain plain_names.main) u4,
          )
          refl

    main_loop_lem :
        (rounds : ℕ) (statics : Statics)
        → Agrees statics
        → main_loop lib env names rounds statics ≡ some (repeated rounds round_lines)
    unfolding main_loop Agrees
    main_loop_lem zero statics h = refl
    main_loop_lem (suc rounds) statics h =
        rw
          (
            main_round_lem statics h,
            main_loop_lem rounds decided_statics (inr refl, inr refl, inr refl, inr refl),
          )
          refl

    pub main_lem :
        (thread_first : Bool) (rounds sig : ℕ) (t_thread ts : LogLevel)
        → log_level env names.thread ≡ some t_thread
        → log_level env names.cb_sig ≡ some ts
        → let by_thread =
            if_logged (should_log debug t_thread) (printed thread_text debug names.thread 46) in
          let hei = if_logged (should_log debug tm) (printed hei_text debug names.main 47) in
          let signalled =
            if_logged (should_log info ts) (printed (signal_text sig) info names.cb_sig 11) in
          main lib env names thread_first rounds sig
          ≡ some (
              (if thread_first then by_thread ++ hei else hei ++ by_thread)
              ++ (repeated rounds round_lines ++ signalled))
    unfolding main thread_log hei_log cb_sig Agrees
    main_lem thread_first rounds sig t_thread ts at_thread at_sig =
        rw
          (
            log_cat_log_lem lib debug names.file 46 names.thread none env [] thread_text
                (printed thread_text debug names.thread 46) t_thread at_thread
                (prints_debug thread_text names.thread 46 (omega arith, omega arith)
                  plain_names.thread)
                (inl refl),
            log_cat_log_lem lib debug names.file 47 names.main none env [] hei_text
                (printed hei_text debug names.main 47) tm at_main
                (prints_debug hei_text names.main 47 hei_text_Plain plain_names.main) (inl refl),
            main_loop_lem rounds fresh (inl refl, inl refl, inl refl, inl refl),
            log_cat_log_lem lib info names.file 11 names.cb_sig none env [] (signal_text sig)
                (printed (signal_text sig) info names.cb_sig 11) ts at_sig
                (prints_info (signal_text sig) names.cb_sig 11 (signal_text_Plain sig)
                  plain_names.cb_sig)
                (inl refl),
          )
          refl
