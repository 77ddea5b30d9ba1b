-- ===== src/Log/Output/Sites.antt =====
-- The calls that one place in the source makes in turn.
use tyndall.Base.{
  ◌∙◌, ap, ℕ, Bool, true, false, if◌then◌else◌, Option, none, some, bind, Bytes, List, [], ◌∷◌,
  ◌++◌, ◌≡◌, refl, bind_ext, Bool-cases, inl, inr,
}
use tyndall.Log.Level.{LogLevel, should_log}
use tyndall.Log.Filter.{log_level}
use tyndall.Log.Output.{Libraries, category_or, log_string, static_should_log, log_if, log_cat_log}

module _ (lib : Libraries) (lvl : LogLevel) (file : Bytes) (line : ℕ)
    (pretty_function : Bytes) where
  -- Calls with their categories and messages, and what they print together.
  unfoldable pub run_site :
      Option Bool → (env : Option Bytes) → List (Bytes × Bytes) → Option (List Bytes)
  run_site decided env [] = some []
  run_site decided env ((category, formatted) ∷ calls) =
      bind (log_cat_log lib lvl file line pretty_function decided env category formatted)
        (λ (printed, decision).
          bind (run_site (some decision) env calls) (λ rest. some (printed ++ rest)))

  -- The messages printed in turn.
  unfoldable pub log_strings : List (Bytes × Bytes) → Option (List Bytes)
  log_strings [] = some []
  log_strings ((category, formatted) ∷ calls) =
      bind (log_string lib formatted lvl (category_or pretty_function category) file line)
        (λ printed. bind (log_strings calls) (λ rest. some (printed ∷ rest)))

  bind_one :
      (o : Option Bytes) (rest : Bool → Option (List Bytes))
      → bind
          (bind (bind o (λ p. some (p ∷ []))) (λ (ps : List Bytes). some (ps, true)))
          (λ (ps, decision). bind (rest decision) (λ r. some (ps ++ r)))
        ≡ bind o (λ p. bind (rest true) (λ r. some (p ∷ r)))
  bind_one none rest = refl
  bind_one (some p) rest = refl

  run_site-false :
      (env : Option Bytes) (calls : List (Bytes × Bytes))
      → run_site (some false) env calls ≡ some []
  unfolding run_site log_cat_log static_should_log log_if
  run_site-false env [] = refl
  run_site-false env ((category, formatted) ∷ calls) = rw (run_site-false env calls) refl

  run_site-true :
      (env : Option Bytes) (calls : List (Bytes × Bytes))
      → run_site (some true) env calls ≡ log_strings calls
  unfolding run_site log_cat_log static_should_log log_if log_strings
  run_site-true env [] = refl
  run_site-true env ((category, formatted) ∷ calls) =
      bind_one (log_string lib formatted lvl (category_or pretty_function category) file line)
        (λ decision. run_site (some decision) env calls)
      ∙ bind_ext (log_string lib formatted lvl (category_or pretty_function category) file line)
          (λ p.
            ap (λ (rest : Option (List Bytes)). bind rest (λ r. some (p ∷ r)))
              (run_site-true env calls))

  run_site_decided :
      (env : Option Bytes) (category formatted : Bytes) (calls : List (Bytes × Bytes))
      (decision : Bool)
      → static_should_log lib lvl file line pretty_function none env
          (category_or pretty_function category)
        ≡ some decision
      → run_site none env ((category, formatted) ∷ calls)
        ≡ run_site (some decision) env ((category, formatted) ∷ calls)
  unfolding run_site log_cat_log static_should_log log_if
  run_site_decided env category formatted calls decision e = rw (e) refl

  -- The level of the first category that reaches a place decides for all later calls there, whatever
  -- their categories: if it admits the level of the place, every message is printed, else none is.
  pub run_site_first :
      (env : Option Bytes) (category formatted : Bytes) (calls : List (Bytes × Bytes))
      (threshold : LogLevel)
      → log_level env (category_or pretty_function category) ≡ some threshold
      → run_site none env ((category, formatted) ∷ calls) ≡ (
          if should_log lvl threshold then log_strings ((category, formatted) ∷ calls) else some [])
  unfolding static_should_log
  run_site_first env category formatted calls threshold e =
      run_site_decided env category formatted calls (should_log lvl threshold) (rw (e) refl)
      ∙ elim (Bool-cases (should_log lvl threshold)) [
        | inl admitted ↦ rw (admitted) (run_site-true env ((category, formatted) ∷ calls))
        | inr refused ↦ rw (refused) (run_site-false env ((category, formatted) ∷ calls))
      ]
