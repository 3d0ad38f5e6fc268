-- ===== src/Loader/Groups.antt =====
-- Maps to slices that the loads of loader/ fill by append, in one level or in two.
use mathlib.Core.Option
use mathlib.Core.List.{foldl, append-nil, append_assoc}
use utils_go.Base.{
  ◌≡◌, refl, sym, ap, ◌∙◌, Option, none, some, Bool, List, [], ◌∷◌, ◌++◌, if◌then◌else◌, Comparable,
  ◌==◌, ◌&&◌, arith, Option-cases, inl, inr,
}
use utils_go.Base.GoMap.{GoMap, lookup, insert, update_all, lookup-insert}
use utils_go.Base.Nested.{lookup2, insert2, lookup2-insert2}
use utils_go.Base.Find.{find_all}

-- The slice that a map holds at a key, nil where it holds none.
abbrev pub slice : {A : Type 0} → Option (List A) → List A
slice none = []
slice (some xs) = xs

-- m[k] = append(m[k], a), where f gives the key
unfoldable pub append_at :
    {A K : Type 0} ⦃e : Comparable K⦄ → (A → K) → A → GoMap K (List A) → GoMap K (List A)
append_at f a m = insert (f a) (slice (lookup (f a) m) ++ a ∷ []) m

-- m[j][k] = append(m[j][k], a), with the inner map made where it is missing
unfoldable pub append_at2 :
    {A J K : Type 0} ⦃ej : Comparable J⦄ ⦃ek : Comparable K⦄
    → (A → J)
    → (A → K)
    → A
    → GoMap J (GoMap K (List A))
    → GoMap J (GoMap K (List A))
append_at2 f g a m = insert2 (f a) (g a) (slice (lookup2 (f a) (g a) m) ++ a ∷ []) m

one_or_none-find_all :
    {A : Type 0} (p : A → Bool) (x : A) (xs : List A)
    → find_all p (x ∷ xs) ≡ (if p x then x ∷ [] else []) ++ find_all p xs
unfolding find_all
one_or_none-find_all p x xs = ground arith

module _ {A K : Type 0} ⦃e : Comparable K⦄ (f : A → K) (k : K) where
  slice-append_at :
      (a : A) (m : GoMap K (List A))
      → slice (lookup k (append_at f a m)) ≡ slice (lookup k m) ++ (if f a == k then a ∷ [] else [])
  unfolding append_at
  slice-append_at a m =
      rw (append_at, lookup-insert (f a) k (slice (lookup (f a) m) ++ a ∷ []) m)
        (ground (arith, append-nil (slice (lookup k m)), e.equal_iff (f a) k))

  -- What is appended for a key, in order.
  pub slice-foldl-append_at :
      (xs : List A) (m : GoMap K (List A))
      → slice (lookup k (foldl (λ t a. append_at f a t) m xs))
        ≡ slice (lookup k m) ++ find_all (λ a. f a == k) xs
  unfolding find_all
  slice-foldl-append_at [] m = sym (append-nil _)
  slice-foldl-append_at (x ∷ xs) m =
      slice-foldl-append_at xs (append_at f x m)
      ∙ ap (λ s. s ++ find_all (λ a. f a == k) xs) (slice-append_at x m)
      ∙ append_assoc (slice (lookup k m)) (if f x == k then x ∷ [] else [])
          (find_all (λ a. f a == k) xs)
      ∙ ap (λ s. slice (lookup k m) ++ s) (sym (one_or_none-find_all (λ a. f a == k) x xs))

module _ {A J K : Type 0} ⦃ej : Comparable J⦄ ⦃ek : Comparable K⦄ (f : A → J) (g : A → K) (j : J)
    (k : K) where
  slice-append_at2 :
      (a : A) (m : GoMap J (GoMap K (List A)))
      → slice (lookup2 j k (append_at2 f g a m))
        ≡ slice (lookup2 j k m) ++ (if f a == j && g a == k then a ∷ [] else [])
  unfolding append_at2
  slice-append_at2 a m =
      rw (append_at2, lookup2-insert2 (f a) j (g a) k (slice (lookup2 (f a) (g a) m) ++ a ∷ []) m)
        (ground
          (arith, append-nil (slice (lookup2 j k m)), ej.equal_iff (f a) j, ek.equal_iff (g a) k))

  pub slice-foldl-append_at2 :
      (xs : List A) (m : GoMap J (GoMap K (List A)))
      → slice (lookup2 j k (foldl (λ t a. append_at2 f g a t) m xs))
        ≡ slice (lookup2 j k m) ++ find_all (λ a. f a == j && g a == k) xs
  unfolding find_all
  slice-foldl-append_at2 [] m = sym (append-nil _)
  slice-foldl-append_at2 (x ∷ xs) m =
      slice-foldl-append_at2 xs (append_at2 f g x m)
      ∙ ap (λ s. s ++ find_all (λ a. f a == j && g a == k) xs) (slice-append_at2 x m)
      ∙ append_assoc (slice (lookup2 j k m)) (if f x == j && g x == k then x ∷ [] else [])
          (find_all (λ a. f a == j && g a == k) xs)
      ∙ ap (λ s. slice (lookup2 j k m) ++ s)
          (sym (one_or_none-find_all (λ a. f a == j && g a == k) x xs))

-- A `range` that replaces each value.
module _ {K V : Type 0} ⦃e : Comparable K⦄ (h : V → V) where
  abbrev pub replace_all : GoMap K V → GoMap K V
  replace_all = update_all (λ k v. some (h v))

  pub lookup-replace_all :
      (k : K) (m : GoMap K V) → lookup k (replace_all m) ≡ Option.map h (lookup k m)
  unfolding lookup update_all
  lookup-replace_all k [] = refl
  lookup-replace_all k ((j, v) ∷ m) = ground (arith, lookup-replace_all k m)

module _ {J K V : Type 0} ⦃ej : Comparable J⦄ ⦃ek : Comparable K⦄ (h : V → V) (j : J) (k : K) where
  inner-replace_all :
      (o : Option (GoMap K V))
      → Option.bind (Option.map (replace_all h) o) (lookup k)
        ≡ Option.map h (Option.bind o (lookup k))
  unfolding Option.bind
  inner-replace_all none = refl
  inner-replace_all (some i) = lookup-replace_all h k i

  lookup2-bind : (m : GoMap J (GoMap K V)) → lookup2 j k m ≡ Option.bind (lookup j m) (lookup k)
  unfolding lookup2 Option.bind
  lookup2-bind m = elim (Option-cases (lookup j m)) [
    | inl missing ↦ rw (lookup2, missing) refl
    | inr (inner, there) ↦ rw (lookup2, there) refl
  ]

  pub lookup2-replace_all :
      (m : GoMap J (GoMap K V))
      → lookup2 j k (replace_all (replace_all h) m) ≡ Option.map h (lookup2 j k m)
  lookup2-replace_all m =
      lookup2-bind (replace_all (replace_all h) m)
      ∙ ap (λ o. Option.bind o (lookup k)) (lookup-replace_all (replace_all h) j m)
      ∙ inner-replace_all (lookup j m)
      ∙ ap (Option.map h) (sym (lookup2-bind m))
