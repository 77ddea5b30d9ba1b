-- ===== src/Tools/IpcRead/Nested/Padding.antt =====
-- Structs where C puts bytes in front of a struct in them.
use tyndall.Base.{◌∙◌, ap, sym, ℕ, ◌+◌, ◌%◌, ◌≤◌, ◌<◌, ◌≢◌, inl, inr, List, [], ◌∷◌, ◌≡◌, arith}
use tyndall.Reflect.PrintFormat.{Scalar, size_of}
use tyndall.Reflect.PrintFormat.Laws.{sizes}
use tyndall.Reflect.Reflection.{Fields, scalar, aggregate, end, field, get_format}
use tyndall.Reflect.Reflection.Format.{leaves, type_leaves}
use tyndall.Tools.IpcRead.{Event, value, print}
use tyndall.Tools.IpcRead.Layout.{struct_of, fields_from, end_from, print-get_format}
use tyndall.Tools.IpcRead.Nested.{
  type_align, fields_align, type_size, fields_end, type_events, c_fields, get_format-leaves,
}

abbrev address_of : List Event → ℕ
address_of (first ∷ value printed ∷ rest) = printed.address
address_of events = 0

-- A struct of a small field, and a struct of a small and a larger one.
abbrev pub padded : (a b c : Scalar) → Fields
padded a b c = field (scalar a) (field (aggregate (struct_of (b ∷ c ∷ []))) end)

padded_addresses :
    (a b c : Scalar) (buf : ℕ)
    → size_of a ≡ 1
    → size_of b ≡ 1
    → 1 < size_of c
    → (address_of (fields_from buf 0 (a ∷ b ∷ c ∷ [])) ≡ buf + 1)
      × (1 + buf < address_of (c_fields buf 0 (padded a b c)))
unfolding type_align fields_align type_size fields_end type_events c_fields
padded_addresses a b c buf ea eb larger = elim (sizes c) [
  | inl e ↦ absurd (omega arith)
  | inr (inl e) ↦ rw (ea, eb, e) (omega arith, omega arith)
  | inr (inr (inl e)) ↦ rw (ea, eb, e) (omega arith, omega arith)
  | inr (inr (inr e)) ↦ rw (ea, eb, e) (omega arith, omega arith)
]

-- If a struct begins with a field of one byte, and goes on with a struct of a field of one byte and one
-- of a larger type, then `print` does not show the values from where C places them: it does not skip the
-- bytes in front of the inner struct. The conditions: the buffer is aligned to 8 and is large enough.
pub print-ne-c_fields :
    (strlen_at : ℕ → ℕ) (a b c : Scalar) (buf buf_size : ℕ)
    → size_of a ≡ 1
    → size_of b ≡ 1
    → 1 < size_of c
    → buf % 8 ≡ 0
    → 18 ≤ buf_size
    → print strlen_at (get_format (padded a b c)) buf buf_size ≢ c_fields buf 0 (padded a b c)
unfolding leaves type_leaves
print-ne-c_fields strlen_at a b c buf buf_size ea eb larger h fits same =
    let (shown, placed) = padded_addresses a b c buf ea eb larger in
    let ends : end_from 0 (a ∷ b ∷ c ∷ []) ≤ buf_size = elim (sizes c) [
      | inl e ↦ absurd (omega arith)
      | inr (inl e) ↦ rw (ea, eb, e) (omega arith)
      | inr (inr (inl e)) ↦ rw (ea, eb, e) (omega arith)
      | inr (inr (inr e)) ↦ rw (ea, eb, e) (omega arith)
    ] in
    let printed : print strlen_at (get_format (padded a b c)) buf buf_size
        ≡ fields_from buf 0 (a ∷ b ∷ c ∷ []) =
      ap (λ f. print strlen_at f buf buf_size) (get_format-leaves (padded a b c))
      ∙ print-get_format strlen_at buf buf_size (a ∷ b ∷ c ∷ []) h ends in
    absurd (omega (arith, shown, placed, ap address_of (sym printed ∙ same)))
