-- ===== src/Reflect/Values/Bindings.antt =====
-- What `reflect` makes of a value: its fields in order.
use tyndall.Base.{
  ◌∙◌, ap, ℕ, zero, suc, ◌+◌, ◌*◌, ◌^◌, ◌<◌, ◌≤◌, ◌==◌, eq→==, ne→==, leb, Bool, true,
  if◌then◌else◌, none, some, bind, List, [], ◌∷◌, length, get_elem?, ◌≡◌, refl, arith, Bool-cases,
  inl, inr,
}
use tyndall.Meta.Macro.{m_inc, m_range, m_range_with_comma, contains}
use tyndall.Meta.Macro.Arithmetic.{numbers}
use tyndall.Meta.MacroTables.{inc_table}
use tyndall.Meta.Macro.Range.{m_range_lem, m_range_with_comma_lem, separated}
use tyndall.Reflect.NFields.{Counts, n_fields_lem}
use tyndall.Reflect.Values.{
  names_of, structured_binding, value_of, values_of, reflect_binding, reflect_overload,
  reflect_impl, reflect_values, get_value,
}

names_of-separated : (n k : ℕ) → names_of (separated n (suc k)) ≡ some (numbers n (suc k))
unfolding names_of
names_of-separated n zero = refl
names_of-separated n (suc k) = rw (names_of-separated (suc n) k) refl

contains-numbers : (n k m : ℕ) → n ≤ m → m < n + k → contains (numbers n k) m ≡ true
contains-numbers n zero m le lt = absurd (omega arith)
contains-numbers n (suc k) m le lt = elim (Bool-cases (n == m)) [
  | inl here ↦ rw (here) refl
  | inr later ↦
      let more : n < m = ground (arith, later) in
      rw (later) (contains-numbers (suc n) k m (omega arith) (omega arith))
]

module _ {ℓ} {A : Type ℓ} where
  -- The names n, n + 1 and so on with the values.
  abbrev numbered : ℕ → List A → List (ℕ × A)
  numbered n [] = []
  numbered n (value ∷ t) = (n, value) ∷ numbered (suc n) t

  structured_binding-numbers :
      (n : ℕ) (t : List A) → structured_binding (numbers n (length t)) t ≡ some (numbered n t)
  unfolding structured_binding
  structured_binding-numbers n [] = refl
  structured_binding-numbers n (value ∷ t) = rw (structured_binding-numbers (suc n) t) refl

  -- A name in front that is not asked for does not matter.
  values_of-skip :
      (n k m : ℕ) (value : A) (bound : List (ℕ × A))
      → m < n
      → values_of (numbers n k) ((m, value) ∷ bound) ≡ values_of (numbers n k) bound
  unfolding values_of value_of
  values_of-skip n zero m value bound lt = refl
  values_of-skip n (suc k) m value bound lt =
      rw
        (
          ne→== m n (λ e. absurd (omega arith)),
          values_of-skip (suc n) k m value bound (omega arith),
        )
        refl

  values_of-numbered :
      (n : ℕ) (t : List A) → values_of (numbers n (length t)) (numbered n t) ≡ some t
  unfolding values_of value_of
  values_of-numbered n [] = refl
  values_of-numbered n (value ∷ t) =
      rw
        (
          eq→== n n refl,
          values_of-skip (suc n) (length t) n value (numbered (suc n) t) (omega arith),
          values_of-numbered (suc n) t,
        )
        refl

  reflect_binding-fields :
      (rounds : ℕ) (value : A) (t : List A)
      → length (value ∷ t) ≤ 30
      → 30 ≤ rounds
      → reflect_binding (suc rounds) (length (value ∷ t)) (value ∷ t) ≡ some (value ∷ t)
  unfolding reflect_binding
  reflect_binding-fields rounds value t few enough =
      let tokens : m_range_with_comma (suc rounds) 0 (length (value ∷ t))
          ≡ some (separated 0 (length (value ∷ t))) =
        ap (λ n. m_range_with_comma (suc rounds) 0 n) (omega arith)
        ∙ m_range_with_comma_lem rounds 0 (length (value ∷ t)) (omega arith) (omega arith) in
      rw (tokens, names_of-separated 0 (length t), structured_binding-numbers 0 (value ∷ t))
        (values_of-numbered 0 (value ∷ t))

  reflect_impl-fields :
      (rounds : ℕ) (t : List A)
      → length t ≤ 30
      → 30 ≤ rounds
      → reflect_impl (suc rounds) t (length t) ≡ some t
  unfolding reflect_impl m_inc reflect_overload inc_table
  reflect_impl-fields rounds [] few enough = refl
  reflect_impl-fields rounds (value ∷ t) few enough =
      let overloads : m_range (suc rounds) 1 31 ≡ some (numbers 1 30) =
        m_range_lem rounds 1 30 (omega arith) enough in
      rw (overloads, contains-numbers 1 30 (length (value ∷ t)) (omega arith) (omega arith))
        (reflect_binding-fields rounds value t few enough)

  get_value-get_elem? : (index : ℕ) (t : List A) → get_value index t ≡ get_elem? t index
  unfolding get_value
  get_value-get_elem? index [] = refl
  get_value-get_elem? zero (value ∷ t) = refl
  get_value-get_elem? (suc index) (value ∷ t) = get_value-get_elem? index t

  -- For a struct of at most 30 fields, `reflect_aggregate` gives an object whose `get<index>` is the
  -- field of that index, for each of them, and that has no further ones; a struct of more fields does
  -- not compile. The conditions: the compiler accepts as many initializers as there are fields or
  -- fewer, the type has a bit for each field and at most 2 ^ 59 bytes, and M_EVAL gives 31 rounds.
  pub reflect_values-get_elem? :
      (constructible : ℕ → Bool) (rounds size index : ℕ) (t : List A)
      → Counts constructible (length t)
      → length t ≤ size * 8
      → size ≤ 2 ^ 59
      → 30 ≤ rounds
      → bind (reflect_values constructible (suc rounds) size t) (λ r. get_value index r)
        ≡ (if leb (length t) 30 then get_elem? t index else none)
  unfolding reflect_values
  reflect_values-get_elem? constructible rounds size index t counts bits small enough =
      elim (Bool-cases (leb (length t) 30)) [
        | inl few ↦
            rw
              (
                n_fields_lem constructible (length t) counts size bits small,
                few,
                reflect_impl-fields rounds t (ground (arith, few)) enough,
              )
              (get_value-get_elem? index t)
        | inr many ↦ rw (n_fields_lem constructible (length t) counts size bits small, many) refl
      ]
