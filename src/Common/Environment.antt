-- ===== src/Common/Environment.antt =====
-- The variables of a process. Windows does not tell names apart by the case of their letters.
use cfdev.Common.Dict.{Dict}
use cfdev.Common.Tests.{if◌then◌else◌, Bool-cases}
use cfdev.Common.Text.{codes, lower, same, same_eq, same_refl}
use Prim.Native.Nat.{ℕ}
use Prim.Native.String.{String}
use mathlib.Core.Path.{◌≡◌, refl, sym, ap, ◌∙◌}
use mathlib.Core.Logic.{inl, inr}
use mathlib.Core.Bool.{Bool, true, false, true≢false}
use mathlib.Core.List.{List, [], ◌∷◌}

pub record Environ : Type 0 where
  pub ignores_case : Bool
  pub variables : Dict String

abbrev pub unix : Dict String → Environ
unix variables = record { ignores_case = false; variables = variables }

abbrev pub windows : Dict String → Environ
windows variables = record { ignores_case = true; variables = variables }

abbrev key : Bool → String → List ℕ
key ignores_case name = if ignores_case then lower (codes name) else codes name

-- Whether two names are of the same variable.
abbrev same_name : Bool → String → String → Bool
same_name ignores_case j k = same (key ignores_case j) (key ignores_case k)

unfoldable value_of : Bool → String → Dict String → String
value_of ignores_case k [] = ""
value_of ignores_case k ((j, v) ∷ d) =
    if same_name ignores_case j k then v else value_of ignores_case k d

unfoldable assigned : Bool → String → String → Dict String → Dict String
assigned ignores_case k v [] = (k, v) ∷ []
assigned ignores_case k v ((j, u) ∷ d) =
    if same_name ignores_case j k then (j, v) ∷ d else (j, u) ∷ assigned ignores_case k v d

-- `os.Getenv`: a variable that is not set is empty.
unfoldable pub getenv : String → Environ → String
unfolding value_of
getenv name env = value_of env.ignores_case name env.variables

-- `os.Setenv`
unfoldable pub setenv : String → String → Environ → Environ
unfolding assigned
setenv name value env = record env {
  variables = assigned env.ignores_case name value env.variables;
}

module _ (c : Bool) where
  -- Two names of one variable are alike to every third.
  alike : (i k j : String) → same_name c i k ≡ true → same_name c i j ≡ same_name c k j
  alike i k j e = ap (λ l. same l (key c j)) (same_eq (key c i) (key c k) e)

  apart :
      (i k j : String) → same_name c i k ≡ false → same_name c i j ≡ true → same_name c k j ≡ false
  apart i k j differs e = elim (Bool-cases (same_name c k j)) [
    | inr d ↦ d
    | inl d ↦
        let i_is_k : key c i ≡ key c k =
          same_eq (key c i) (key c j) e ∙ sym (same_eq (key c k) (key c j) d) in
        absurd
          (true≢false (sym (ap (λ l. same l (key c k)) i_is_k ∙ same_refl (key c k)) ∙ differs))
  ]

  value_of-assigned :
      (k j v : String) (d : Dict String)
      → value_of c j (assigned c k v d) ≡ (if same_name c k j then v else value_of c j d)
  unfolding value_of assigned
  value_of-assigned k j v [] = refl
  value_of-assigned k j v ((i, u) ∷ d) = elim (Bool-cases (same_name c i k)) [
    | inl e ↦ elim (Bool-cases (same_name c i j)) [
      | inl f ↦ rw (e, f, sym (alike i k j e) ∙ f) refl
      | inr f ↦ rw (e, f, sym (alike i k j e) ∙ f) refl
    ]
    | inr e ↦ elim (Bool-cases (same_name c i j)) [
      | inl f ↦ rw (e, f, apart i k j e f) refl
      | inr f ↦ rw (e, f) (value_of-assigned k j v d)
    ]
  ]

pub getenv-setenv :
    (k j v : String) (env : Environ)
    → getenv j (setenv k v env) ≡ (if same_name env.ignores_case k j then v else getenv j env)
unfolding getenv setenv
getenv-setenv k j v env = value_of-assigned env.ignores_case k j v env.variables
