-- ===== src/Web/Info.antt =====
-- errors/error.go with response/response.go: what WithInfo leaves in the error's map, and that the
-- answer to a request does not show it.
use mathlib.Core.List.{foldl}
use utils_go.Base.{
  ◌%◌, ◌≡◌, refl, ap, ◌∙◌, Option, none, some, List, [], ◌∷◌, Bool, true, false, arith, length,
  nat_beq, if◌then◌else◌, ◌==◌, Bool-cases, inl, inr,
}
use utils_go.Base.Text.{Text, text_beq_iff, text_eq}
use utils_go.Base.GoMap.{GoMap, Distinct, lookup, insert, lookup-insert}
use utils_go.Web.Errors.{
  Any, string, other, BizError, drop_last, even_arguments, add_pairs, copy_info, with_info,
}
use utils_go.Web.Response.{Response, biz, respond_error}

module _ {V : Type 0} where
  -- The value that stands behind the last of the string keys at even places that is this key.
  abbrev pub last_value : Text → List (Any V) → Option (Any V)
  last_value key [] = none
  last_value key (k ∷ []) = none
  last_value key (string k ∷ value ∷ kv) = elim (last_value key kv) [
    | some later ↦ some later
    | none ↦ if k == key then some value else none
  ]
  last_value key (other k ∷ value ∷ kv) = last_value key kv

  abbrev pub or_else : Option (Any V) → Option (Any V) → Option (Any V)
  or_else (some v) w = some v
  or_else none w = w

  lookup-add_pairs :
      (key : Text) (kv : List (Any V)) (info : GoMap Text (Any V))
      → lookup key (add_pairs kv info) ≡ or_else (last_value key kv) (lookup key info)
  unfolding add_pairs
  lookup-add_pairs key [] info = refl
  lookup-add_pairs key (string k ∷ []) info = refl
  lookup-add_pairs key (other k ∷ []) info = refl
  lookup-add_pairs key (other k ∷ value ∷ kv) info = lookup-add_pairs key kv info
  lookup-add_pairs key (string k ∷ value ∷ kv) info =
      lookup-add_pairs key kv (insert k value info)
      ∙ (ap (or_else (last_value key kv)) (lookup-insert k key value info)
          ∙ later (last_value key kv) (k == key) value (lookup key info))
    where
      later :
          (l : Option (Any V)) (same : Bool) (v : Any V) (old : Option (Any V))
          → or_else l (if same then some v else old)
            ≡ or_else (elim l [ some w ↦ some w | none ↦ if same then some v else none ]) old
      later (some w) same v old = refl
      later none true v old = refl
      later none false v old = refl

  last_value-drop_last :
      (key : Text) (kv : List (Any V))
      → length kv % 2 ≡ 1
      → last_value key (drop_last kv) ≡ last_value key kv
  unfolding drop_last
  last_value-drop_last key [] odd = refl
  last_value-drop_last key (k ∷ []) odd = refl
  last_value-drop_last key (k ∷ value ∷ []) odd = ground arith
  last_value-drop_last key (string k ∷ value ∷ next ∷ kv) odd =
      rw (last_value-drop_last key (next ∷ kv) (omega arith)) refl
  last_value-drop_last key (other k ∷ value ∷ next ∷ kv) odd =
      last_value-drop_last key (next ∷ kv) (omega arith)

  last_value-even_arguments :
      (key : Text) (kv : List (Any V)) → last_value key (even_arguments kv) ≡ last_value key kv
  unfolding even_arguments
  last_value-even_arguments key kv = elim (Bool-cases (nat_beq (length kv % 2) 0)) [
    | inl even ↦ rw (even_arguments, even) refl
    | inr odd ↦ rw (even_arguments, odd) (last_value-drop_last key kv (ground arith))
  ]

  lookup-copied :
      (key : Text) (m copy : GoMap Text (Any V))
      → Distinct m
      → lookup key (foldl (λ c entry. insert entry.0 entry.1 c) copy m)
        ≡ or_else (lookup key m) (lookup key copy)
  unfolding lookup
  lookup-copied key [] copy d = refl
  lookup-copied key ((k, v) ∷ m) copy d =
      lookup-copied key m (insert k v copy) d.1
      ∙ rw (lookup-insert k key v copy) (ground (arith, text_beq_iff k key, d.0))

  lookup-copy_info :
      (key : Text) (m : GoMap Text (Any V)) → Distinct m → lookup key (copy_info m) ≡ lookup key m
  unfolding copy_info lookup
  lookup-copy_info key m d = lookup-copied key m [] d ∙ or_else_none (lookup key m)
    where
      or_else_none : (o : Option (Any V)) → or_else o none ≡ o
      or_else_none (some v) = refl
      or_else_none none = refl

  -- After WithInfo a key of the error's map has the value behind its last occurrence among the string
  -- keys of the arguments, and where it is none of them what it had before. A key that is no string, and
  -- the last argument of an odd number, count for nothing. The answer that RespondError sends is that
  -- of the error before.
  pub with_info_lem :
      (kv : List (Any V)) (e : BizError V) (key : Text) (sent : List (Response V))
      → Distinct e.info
      → (lookup key (with_info kv e).info ≡ or_else (last_value key kv) (lookup key e.info))
        × (respond_error (some (biz (with_info kv e))) sent ≡ respond_error (some (biz e)) sent)
  unfolding with_info respond_error
  with_info_lem kv e key sent d = (
    lookup-add_pairs key (even_arguments kv) (copy_info e.info)
        ∙ rw (last_value-even_arguments key kv, lookup-copy_info key e.info d) refl,
    refl,
  )
