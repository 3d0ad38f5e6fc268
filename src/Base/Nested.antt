-- ===== src/Base/Nested.antt =====
-- Go maps of maps, filled by the source's idiom: the inner map is made when its key is missing, and
-- is then written through the reference that the outer map holds.

use utils_go.Base.Tests.{if◌then◌else◌, Comparable, ◌==◌}
use utils_go.Base.GoMap.{GoMap, lookup, insert, lookup-insert}
use mathlib.Core.Path.{◌≡◌, refl}
use mathlib.Core.Bool.{◌&&◌}
use mathlib.Core.Option.{Option, none, some}
use mathlib.Core.List.{[]}
use native.Mathlib.Omega.{arith}

-- inner, ok := m[k]; if !ok { inner = make(...) }
abbrev pub inner_map : {K V : Type 0} → Option (GoMap K V) → GoMap K V
inner_map none = []
inner_map (some m) = m

module _ {J K V : Type 0} ⦃ej : Comparable J⦄ ⦃ek : Comparable K⦄ where
  unfoldable pub lookup2 : J → K → GoMap J (GoMap K V) → Option V
  lookup2 j k m = elim (lookup j m) [ none ↦ none | some inner ↦ lookup k inner ]

  unfoldable pub insert2 : J → K → V → GoMap J (GoMap K V) → GoMap J (GoMap K V)
  insert2 j k v m = insert j (insert k v (inner_map (lookup j m))) m

  pub lookup2-nil : (j : J) (k : K) → lookup2 j k [] ≡ none
  unfolding lookup2 lookup
  lookup2-nil j k = refl

  pub lookup2-insert2 :
      (j a : J) (k b : K) (v : V) (m : GoMap J (GoMap K V))
      → lookup2 a b (insert2 j k v m) ≡ (if (j == a) && (k == b) then some v else lookup2 a b m)
  unfolding lookup2 insert2 lookup
  lookup2-insert2 j a k b v m = ground (
    arith,
    lookup-insert j a (insert k v (inner_map (lookup j m))) m,
    lookup-insert k b v (inner_map (lookup j m)),
    lookup-empty b,
    ej.equal_iff j a,
  )
    where
      lookup-empty : (x : K) → lookup {V = V} x [] ≡ none
      lookup-empty x = refl

module _ {I J K V : Type 0} ⦃ei : Comparable I⦄ ⦃ej : Comparable J⦄ ⦃ek : Comparable K⦄ where
  unfoldable pub lookup3 : I → J → K → GoMap I (GoMap J (GoMap K V)) → Option V
  lookup3 i j k m = elim (lookup i m) [ none ↦ none | some inner ↦ lookup2 j k inner ]

  unfoldable pub insert3 :
      I → J → K → V → GoMap I (GoMap J (GoMap K V)) → GoMap I (GoMap J (GoMap K V))
  insert3 i j k v m = insert i (insert2 j k v (inner_map (lookup i m))) m

  pub lookup3-nil : (i : I) (j : J) (k : K) → lookup3 i j k [] ≡ none
  unfolding lookup3 lookup
  lookup3-nil i j k = refl

  pub lookup3-insert3 :
      (i a : I) (j b : J) (k c : K) (v : V) (m : GoMap I (GoMap J (GoMap K V)))
      → lookup3 a b c (insert3 i j k v m)
        ≡ (if (i == a) && ((j == b) && (k == c)) then some v else lookup3 a b c m)
  unfolding lookup3 insert3 lookup2 lookup
  lookup3-insert3 i a j b k c v m = ground (
    arith,
    lookup-insert i a (insert2 j k v (inner_map (lookup i m))) m,
    lookup2-insert2 j b k c v (inner_map (lookup i m)),
    lookup2-nil {V = V} b c,
    ei.equal_iff i a,
  )
