-- ===== src/Log/Output/Printf.antt =====
-- The text of a message is the format of a `printf` without arguments.
use tyndall.Base.{
  ◌∙◌, ap, sym, ℕ, false, Option, none, some, Bytes, ◌∷◌, ◌++◌, append_assoc, Lacks, All-append,
  ◌≡◌, refl,
}
use tyndall.Log.Level.{LogLevel}
use tyndall.Log.Output.{Libraries, dark_violet, log_level_to_color_string, preamble_of, log_string}

-- A text without a conversion and without a NUL.
abbrev pub Plain : Bytes → Type 0
Plain s = Lacks b'%' s × Lacks 0 s

-- What C documents of `printf`: it prints a format without conversions as it is, prints one "%" for
-- "%%", and its behaviour is undefined if an argument is missing.
pub record Printf (printf : Bytes → Option Bytes) : Type 0 where
  pub plain : (s : Bytes) → Plain s → printf s ≡ some s
  pub doubled :
      (s t : Bytes) → Plain s → Plain t → printf (s ++ (b'%' ∷ b'%' ∷ t)) ≡ some (s ++ (b'%' ∷ t))
  pub missing : (s t : Bytes) → Plain s → printf (s ++ (b'%' ∷ b's' ∷ t)) ≡ none

pub Plain-append : (s t : Bytes) → Plain s → Plain t → Plain (s ++ t)
Plain-append s t (s_percent, s_nul) (t_percent, t_nul) =
    (All-append _ s t s_percent t_percent, All-append _ s t s_nul t_nul)

module _ (lib : Libraries) (c : Printf lib.printf) (lvl : LogLevel) (cat file level colored : Bytes)
    (line : ℕ) where
  log_string_printf :
      (s : Bytes)
      → lib.styled (record { bold = false; color = dark_violet }) cat ≡ some colored
      → log_level_to_color_string lib lvl ≡ some level
      → log_string lib s lvl cat file line
        ≡ lib.printf (preamble_of lib level file colored line ++ s)
  unfolding log_string
  log_string_printf s e f = rw (e, f) refl

  -- Where the library colours the level and the category, and these, the file and the line have no "%":
  -- a message without "%" is printed behind the preamble as it is; in one with "%%" a sign is lost; and
  -- for one with "%s" the behaviour is undefined.
  pub log_string-Plain :
      (s t : Bytes)
      → lib.styled (record { bold = false; color = dark_violet }) cat ≡ some colored
      → log_level_to_color_string lib lvl ≡ some level
      → Plain (preamble_of lib level file colored line)
      → Plain s
      → Plain t
      → let preamble = preamble_of lib level file colored line in
        (log_string lib s lvl cat file line ≡ some (preamble ++ s))
        × (log_string lib (s ++ (b'%' ∷ b'%' ∷ t)) lvl cat file line
            ≡ some (preamble ++ (s ++ (b'%' ∷ t))))
        × (log_string lib (s ++ (b'%' ∷ b's' ∷ t)) lvl cat file line ≡ none)
  log_string-Plain s t e f p hs ht =
      let preamble = preamble_of lib level file colored line in
      let front = Plain-append preamble s p hs in
      (
        log_string_printf s e f ∙ c.plain (preamble ++ s) front,
        log_string_printf (s ++ (b'%' ∷ b'%' ∷ t)) e f
            ∙ ap lib.printf (sym (append_assoc preamble s (b'%' ∷ b'%' ∷ t)))
            ∙ c.doubled (preamble ++ s) t front ht
            ∙ ap some (append_assoc preamble s (b'%' ∷ t)),
        log_string_printf (s ++ (b'%' ∷ b's' ∷ t)) e f
            ∙ ap lib.printf (sym (append_assoc preamble s (b'%' ∷ b's' ∷ t)))
            ∙ c.missing (preamble ++ s) t front,
      )
