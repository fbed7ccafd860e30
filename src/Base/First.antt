-- ===== src/Base/First.antt =====
-- The first element of a list that a test finds.
use mathlib.Core.Path.{◌≡◌, refl, ap, ◌∙◌}
use mathlib.Core.Logic.{◌↔◌}
use mathlib.Core.Bool.{Bool, true, false}
use mathlib.Core.List.{List, [], ◌∷◌, ◌++◌}
use mathlib.Core.Option.{Option, none, some}
use mathlib.Core.Logic.{inl, inr}
use sillyweb.Base.Lists.{All}
use sillyweb.Base.Tests.{if◌then◌else◌, Bool-cases}

module _ {ℓ κ} {A : Type ℓ} {B : Type κ} (test : A → Bool) (value : A → B) where
  unfoldable pub first_value : List A → Option B
  first_value [] = none
  first_value (x ∷ xs) = if test x then some (value x) else first_value xs

-- `x` stands in the list, has the property, and nothing before it has.
pub record IsFirst {ℓ κ} {A : Type ℓ} (P : A → Type κ) (x : A) (xs : List A) : Type (ℓ ⊔ κ) where
  pub front : List A
  pub back : List A
  pub split : xs ≡ front ++ (x ∷ back)
  pub before : All (λ y. ¬ P y) front
  pub has : P x

module _ {ℓ κ} {A : Type ℓ} {B : Type κ} (test : A → Bool) (value : A → B) (P : A → Type 0)
    (test_iff : (x : A) → (test x ≡ true) ↔ P x) where
  fails : (x : A) → test x ≡ false → ¬ P x
  fails x n p = cc ((test_iff x).1 p, n)

  pub first_value-none : (xs : List A) → (first_value test value xs ≡ none) ↔ All (λ x. ¬ P x) xs
  unfolding first_value
  first_value-none [] = (λ e. tt, λ h. refl)
  first_value-none (x ∷ xs) = elim (Bool-cases (test x)) [
    | inl y ↦ (λ e. absurd (cc (rw (first_value, y) at e)), λ h. absurd (h.0 ((test_iff x).0 y)))
    | inr n ↦
        let (there, back) = first_value-none xs in
        (λ e. (fails x n, there (rw (first_value, n) at e)), λ h. rw (first_value, n) (back h.1))
  ]

  -- The value that is found is that of the first element with the property.
  pub first_value-some :
      (xs : List A) (b : B)
      → (first_value test value xs ≡ some b) ↔ ((x : A) × IsFirst P x xs × (value x ≡ b))
  unfolding first_value
  first_value-some xs b = (found xs, λ (x, h, e). there xs x h e)
    where
      found :
          (ys : List A)
          → first_value test value ys ≡ some b
          → (x : A) × IsFirst P x ys × (value x ≡ b)
      found [] e = absurd (cc e)
      found (y ∷ ys) e = elim (Bool-cases (test y)) [
        | inl t ↦ (
          y,
          record { front = []; back = ys; split = refl; before = tt; has = (test_iff y).0 t },
          cc (rw (first_value, t) at e),
        )
        | inr n ↦
            let (x, h, v) = found ys (rw (first_value, n) at e) in
            (
              x,
              record {
                front = y ∷ h.front;
                back = h.back;
                split = ap (◌∷◌ y) h.split;
                before = (fails y n, h.before);
                has = h.has;
              },
              v,
            )
      ]

      behind :
          (front back : List A) (x : A)
          → All (λ y. ¬ P y) front
          → P x
          → first_value test value (front ++ (x ∷ back)) ≡ some (value x)
      behind [] back x none_before p = rw ((test_iff x).1 p) refl
      behind (y ∷ front) back x none_before p = elim (Bool-cases (test y)) [
        | inl t ↦ absurd (none_before.0 ((test_iff y).0 t))
        | inr n ↦ rw (first_value, n) (behind front back x none_before.1 p)
      ]

      there :
          (ys : List A) (x : A) → IsFirst P x ys → value x ≡ b → first_value test value ys ≡ some b
      there ys x h e =
          ap (first_value test value) h.split ∙ behind h.front h.back x h.before h.has ∙ ap some e
