-- ===== src/Log/Level/Macros.antt =====
-- tyndall/log/log.h: the macros that log at a level, with a category and without.
use tyndall.Base.{true, false, pos, ℕ, ◌≡◌, ◌≢◌, ◌↔◌, refl, arith}
use tyndall.Log.Level.{LogLevel, fatal, error, alarm, warning, info, debug, trace, should_log}

-- `x` for the macros log_x and log_cat_x.
pub data Macro : Type 0 where
  log_fatal : Macro
  log_error : Macro
  log_alarm : Macro
  log_warning : Macro
  log_info : Macro
  log_debug : Macro
  log_trace : Macro

-- The level that log_x passes to `log_log`.
unfoldable pub log_log_level : Macro → LogLevel
log_log_level log_fatal = fatal
log_log_level log_error = error
log_log_level log_alarm = fatal
log_log_level log_warning = warning
log_log_level log_info = info
log_log_level log_debug = debug
log_log_level log_trace = trace

-- The level that log_cat_x passes to `log_cat_log`.
unfoldable pub log_cat_level : Macro → LogLevel
log_cat_level log_fatal = fatal
log_cat_level log_error = error
log_cat_level log_alarm = alarm
log_cat_level log_warning = warning
log_cat_level log_info = info
log_cat_level log_debug = debug
log_cat_level log_trace = trace

level_inj : {m n : ℕ} → pos m ≡ pos n → m ≡ n
level_inj e = cc

-- A macro with a category and the one without log at the same level, except for log_alarm, which logs at
-- the level fatal: its message is printed at every threshold from fatal up, also where those of log_cat_alarm and of
-- log_cat_error are not.
pub log_cat_level-log_log_level :
    (m : Macro) (threshold : ℕ)
    → ((log_cat_level m ≡ log_log_level m) ↔ (m ≢ log_alarm))
      × (should_log (log_log_level log_alarm) (pos threshold) ≡ true)
      × (should_log (log_cat_level log_error) (pos 0) ≡ false)
      × (should_log (log_cat_level log_alarm) (pos 1) ≡ false)
unfolding log_cat_level log_log_level should_log
log_cat_level-log_log_level m threshold = (levels m, ground arith, refl, refl)
  where
    levels : (m : Macro) → (log_cat_level m ≡ log_log_level m) ↔ (m ≢ log_alarm)
    levels log_fatal = (λ _ e. cc, λ _. refl)
    levels log_error = (λ _ e. cc, λ _. refl)
    levels log_alarm = (λ e. absurd (omega (arith, level_inj e)), λ ne. absurd (ne refl))
    levels log_warning = (λ _ e. cc, λ _. refl)
    levels log_info = (λ _ e. cc, λ _. refl)
    levels log_debug = (λ _ e. cc, λ _. refl)
    levels log_trace = (λ _ e. cc, λ _. refl)
