-- ===== src/Reflect/Values.antt =====
-- tyndall/reflect/reflect.h on values: the fields of a struct by a structured binding whose names the
-- preprocessor writes. `A` is the type of the fields' values. `none` is what does not compile.
pub mod Bindings
use tyndall.Base.{
  ℕ, zero, suc, ◌==◌, leb, Bool, true, false, if◌then◌else◌, Option, none, some, bind, List, [],
  ◌∷◌, length,
}
use tyndall.Meta.Macro.{m_inc, m_range, Token, item, comma, m_range_with_comma, contains}
use tyndall.Reflect.NFields.{n_fields}
use tyndall.Reflect.Reflection.{reflect_max_fields}

-- The names in a list with commas; names are a0, a1 and so on.
unfoldable pub names_of : List Token → Option (List ℕ)
names_of [] = none
names_of (comma ∷ tokens) = none
names_of (item n ∷ []) = some (n ∷ [])
names_of (item n ∷ item m ∷ tokens) = none
names_of (item n ∷ comma ∷ tokens) = bind (names_of tokens) (λ names. some (n ∷ names))

module _ {ℓ} {A : Type ℓ} where
  -- `auto&& [ names ] = t`: as many names as fields.
  unfoldable pub structured_binding : List ℕ → List A → Option (List (ℕ × A))
  structured_binding [] [] = some []
  structured_binding [] (value ∷ t) = none
  structured_binding (name ∷ names) [] = none
  structured_binding (name ∷ names) (value ∷ t) =
      bind (structured_binding names t) (λ bound. some ((name, value) ∷ bound))

  unfoldable pub value_of : ℕ → List (ℕ × A) → Option A
  value_of name [] = none
  value_of name ((other, value) ∷ bound) =
      let later = value_of name bound in if other == name then some value else later

  -- The arguments of the constructor of the reflection.
  unfoldable pub values_of : List ℕ → List (ℕ × A) → Option (List A)
  values_of [] bound = some []
  values_of (name ∷ names) bound =
      bind (value_of name bound)
        (λ value. bind (values_of names bound) (λ values. some (value ∷ values)))

  -- REFLECT_I(I, _): the names of the binding, and the same names as arguments.
  unfoldable pub reflect_binding : (rounds I : ℕ) → List A → Option (List A)
  reflect_binding rounds I t = bind (m_range_with_comma rounds 0 I) (λ tokens.
      bind (names_of tokens)
        (λ names. bind (structured_binding names t) (λ bound. values_of names bound)))

  -- The overloads that M_RANGE(REFLECT_I, 1, M_INC(REFLECT_MAX_FIELDS)) writes.
  unfoldable pub reflect_overload : (rounds I : ℕ) → List A → List ℕ → Option (List A)
  reflect_overload rounds I t overloads =
      if contains overloads I then reflect_binding rounds I t else none

  unfoldable pub reflect_impl : (rounds : ℕ) → List A → (I : ℕ) → Option (List A)
  reflect_impl rounds t zero = some []
  reflect_impl rounds t (suc I) = bind (m_inc reflect_max_fields) (λ end.
      bind (m_range rounds 1 end) (λ overloads. reflect_overload rounds (suc I) t overloads))

  -- `reflect_aggregate`, of a type of `size` bytes.
  unfoldable pub reflect_values :
      (constructible : ℕ → Bool) (rounds size : ℕ) → List A → Option (List A)
  reflect_values constructible rounds size t =
      bind (n_fields constructible size) (λ number_of_fields.
        if leb number_of_fields reflect_max_fields
        then reflect_impl rounds t number_of_fields
        else none)

  -- `reflection::get`
  unfoldable pub get_value : ℕ → List A → Option A
  get_value index [] = none
  get_value zero (lhs ∷ rhs) = some lhs
  get_value (suc index) (lhs ∷ rhs) = get_value index rhs
