-- ===== src/Base/Find.antt =====
-- The first and the last item of a list that passes a test.

use mathlib.Core.Path.{◌≡◌, refl, sym, ap, ◌∙◌}
use mathlib.Core.Logic.{◌↔◌, inl, inr}
use mathlib.Core.Bool.{Bool, true, false, ◌&&◌, ◌||◌}
use mathlib.Core.Option.{Option, none, some}
use mathlib.Core.List.{List, [], ◌∷◌, ◌++◌}
use native.Mathlib.Omega.{arith}
use utils_go.Base.Tests.{if◌then◌else◌, Bool-cases}
use utils_go.Base.Lists.{All, In}

module _ {A : Type 0} where
  unfoldable pub find_first : (A → Bool) → List A → Option A
  find_first p [] = none
  find_first p (x ∷ xs) = if p x then some x else find_first p xs

  unfoldable pub find_last : (A → Bool) → List A → Option A
  find_last p [] = none
  find_last p (x ∷ xs) = elim (find_last p xs) [
    | some y ↦ some y
    | none ↦ if p x then some x else none
  ]

  unfoldable pub find_all : (A → Bool) → List A → List A
  find_all p [] = []
  find_all p (x ∷ xs) = let rest = find_all p xs in if p x then x ∷ rest else rest

  pub find_all-both :
      (p q : A → Bool) (xs : List A) → find_all p (find_all q xs) ≡ find_all (λ x. q x && p x) xs
  unfolding find_all
  find_all-both p q [] = refl
  find_all-both p q (x ∷ xs) = ground (arith, find_all-both p q xs)

  pub find_first_sound :
      (p : A → Bool) (xs : List A) (x : A) → find_first p xs ≡ some x → p x ≡ true
  unfolding find_first
  find_first_sound p [] x h = ground arith
  find_first_sound p (y ∷ xs) x h = ground (arith, find_first_sound p xs x)

  pub find_first-none :
      (p : A → Bool) (xs : List A) → find_first p xs ≡ none → All (λ x. p x ≡ false) xs
  unfolding find_first
  find_first-none p [] h = tt
  find_first-none p (y ∷ xs) h = ground (arith, find_first-none p xs)

  pub find_last-snoc :
      (p : A → Bool) (x : A) (xs : List A)
      → find_last p (xs ++ x ∷ []) ≡ (if p x then some x else find_last p xs)
  unfolding find_last
  find_last-snoc p x [] = refl
  find_last-snoc p x (y ∷ xs) = ground (arith, find_last-snoc p x xs)

  pub In-find_all :
      (q : A → Bool) (xs : List A) (y : A) → In y (find_all q xs) ↔ (In y xs × (q y ≡ true))
  unfolding find_all
  In-find_all q [] y = (λ i. elim i [ ], λ i. elim i.0 [ ])
  In-find_all q (x ∷ xs) y = elim (Bool-cases (q x)) [
    | inl passes ↦
        let (out, back) = In-find_all q xs y in
        rw (find_all, passes)
          (
            λ i. elim i [
              | inl e ↦ (inl e, ap q (sym e) ∙ passes)
              | inr j ↦ (inr (out j).0, (out j).1)
            ],
            λ i. elim i.0 [ inl e ↦ inl e | inr j ↦ inr (back (j, i.1)) ],
          )
    | inr fails ↦
        let (out, back) = In-find_all q xs y in
        rw (find_all, fails)
          (
            λ i. (inr (out i).0, (out i).1),
            λ i. elim i.0 [ inl e ↦ ground arith | inr j ↦ back (j, i.1) ],
          )
  ]

  -- A loop that returns true at the first item that passes.
  unfoldable pub any : (A → Bool) → List A → Bool
  any p [] = false
  any p (x ∷ xs) = p x || any p xs

  pub any_iff :
      (p : A → Bool) (xs : List A) → (any p xs ≡ true) ↔ ((x : A) × In x xs × (p x ≡ true))
  unfolding any
  any_iff p [] = (λ h. ground arith, λ h. elim h.1 [ ])
  any_iff p (x ∷ xs) = elim (Bool-cases (p x)) [
    | inl passes ↦ (λ h. (x, inl refl, passes), λ h. rw (any, passes) refl)
    | inr fails ↦
        let (out, back) = any_iff p xs in
        (
          λ h. let (y, i, passes) = out (rw (any, fails) at h) in (y, inr i, passes),
          λ h. rw (any, fails) (elim h.1 [ inl e ↦ ground arith | inr i ↦ back (h.0, i, h.2) ]),
        )
  ]
