-- ===== src/Loader/Lanes.antt =====
-- The tables token → from chain → to chain of loader/dtc.go and loader/bridge_fee.go, which a load
-- fills row by row.
use mathlib.Core.List.{foldl}
use utils_go.Base.{◌≡◌, refl, ◌∙◌, Option, none, some, List, [], ◌∷◌, ◌==◌, ◌&&◌, arith}
use utils_go.Base.Text.{Text, text_eq}
use utils_go.Base.Nested.{lookup3, insert3, lookup3-insert3, lookup3-nil}
use utils_go.Base.Find.{find_last}

-- What is found in the rows, and else before them.
abbrev or_else : {A : Type 0} → Option A → Option A → Option A
or_else none b = b
or_else (some a) b = some a

or_else-none : {A : Type 0} (a : Option A) → or_else a none ≡ a
or_else-none none = refl
or_else-none (some x) = refl

module _ {A : Type 0} (f g h : A → Text) (token from to : Text) where
  lookup3-foldl :
      (xs : List A) (table : List (Text × List (Text × List (Text × A))))
      → lookup3 token from to (foldl (λ t a. insert3 (f a) (g a) (h a) a t) table xs)
        ≡ or_else
            (find_last (λ a. f a == token && (g a == from && h a == to)) xs)
            (lookup3 token from to table)
  unfolding find_last
  lookup3-foldl [] table = refl
  lookup3-foldl (x ∷ xs) table =
      lookup3-foldl xs (insert3 (f x) (g x) (h x) x table)
      ∙ ground (arith, lookup3-insert3 (f x) token (g x) from (h x) to x table)

  -- In a table filled from nothing a lane has the last row that was stored for it.
  pub lookup3-foldl_nil :
      (xs : List A)
      → lookup3 token from to (foldl (λ t a. insert3 (f a) (g a) (h a) a t) [] xs)
        ≡ find_last (λ a. f a == token && (g a == from && h a == to)) xs
  lookup3-foldl_nil xs =
      lookup3-foldl xs []
      ∙ (rw (lookup3-nil {V = A} token from to)
          (or_else-none (find_last (λ a. f a == token && (g a == from && h a == to)) xs)))
