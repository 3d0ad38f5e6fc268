-- ===== src/Loader/NodeInfo/Preferred.antt =====
-- loader/node_info.go: the nodes that the two queries for one node return after a load.
use mathlib.Core.Option
use mathlib.Core.Path.{subst, fun_ext}
use mathlib.Core.List.{foldl}
use utils_go.Base.{
  ◌≡◌, ◌↔◌, ◌⊎◌, inl, inr, refl, sym, ap, ◌∙◌, Option, none, some, Bool, true, false, List, [], ◌∷◌,
  ◌==◌, ◌&&◌, arith, Bool-cases, All, In,
}
use utils_go.Base.Int.{ℤ, int_eq, ◌<ℤ◌, ◌≤ℤ◌, ltb_ℤ, ltb_ℤ→lt, ltb_ℤ-false, eq_of_parts}
use utils_go.Base.Text.{text}
use utils_go.Base.GoMap.{lookup}
use utils_go.Base.Nested.{lookup2}
use utils_go.Base.Find.{find_first, find_all, In-find_all}
use utils_go.Loader.Groups.{
  slice, append_at, append_at2, slice-foldl-append_at, slice-foldl-append_at2, lookup-replace_all,
  lookup2-replace_all,
}
use utils_go.Loader.Rows.{Rows, good, used_rows, load_loop-eq-foldl}
use utils_go.Loader.NodeInfo.{
  NodeInfo, NodeTables, no_nodes, NodeInfoManager, is_usable, first_node, node_less, put_node,
  sort_tables, load_all_nodes, get_node_infos_by_real_chain_id_and_type,
  get_best_node_by_real_chain_id_and_type, get_available_node_by_real_chain_id,
}

-- No item is before an earlier one in the order of sortNodesByUsability.
abbrev pub IsSorted : List NodeInfo → Type 0
IsSorted [] = Unit
IsSorted (x ∷ xs) = All (λ y. node_less y x ≡ false) xs × IsSorted xs

-- The node has a higher usability than the other, or the same and an id that is not higher.
abbrev pub IsRanked : NodeInfo → NodeInfo → Type 0
IsRanked n y = (y.usability <ℤ n.usability) ⊎ ((y.usability ≡ n.usability) × (n.id ≤ℤ y.id))

-- None where no node passes the test, and else a node that passes and is ranked before each one that passes.
abbrev pub IsPreferred : (NodeInfo → Bool) → List NodeInfo → Option NodeInfo → Type 0
IsPreferred p nodes none = All (λ n. p n ≡ false) nodes
IsPreferred p nodes (some n) =
    In n nodes × (p n ≡ true) × All (λ y. (p y ≡ false) ⊎ IsRanked n y) nodes

IsRanked-self : (n : NodeInfo) → IsRanked n n
IsRanked-self n = inr (refl, omega arith)

IsRanked-if : (n y : NodeInfo) → node_less y n ≡ false → IsRanked n y
unfolding node_less
IsRanked-if n y h = elim (Bool-cases (y.usability == n.usability)) [
  | inl same ↦
      inr ((int_eq.equal_iff y.usability n.usability).0 same, ltb_ℤ-false y.id n.id (ground arith))
  | inr other ↦ elim (Bool-cases (ltb_ℤ y.usability n.usability)) [
    | inl lower ↦ inl (ltb_ℤ→lt y.usability n.usability lower)
    | inr not_lower ↦
        let same : y.usability ≡ n.usability = eq_of_parts y.usability n.usability (
          omega (
            arith,
            ltb_ℤ-false y.usability n.usability not_lower,
            ltb_ℤ-false n.usability y.usability (ground arith),
          )) in
        absurd (ground (arith, (int_eq.equal_iff y.usability n.usability).1 same, other))
  ]
]

All-In : (P : NodeInfo → Type 0) (xs : List NodeInfo) → ((y : NodeInfo) → In y xs → P y) → All P xs
All-In P [] h = tt
All-In P (x ∷ xs) h = (h x (inl refl), All-In P xs (λ y i. h y (inr i)))

All-weaken :
    (P Q : NodeInfo → Type 0)
    → ((y : NodeInfo) → P y → Q y)
    → (xs : List NodeInfo) → All P xs
    → All Q xs
All-weaken P Q h [] a = tt
All-weaken P Q h (x ∷ xs) a = (h x a.0, All-weaken P Q h xs a.1)

All-at : (P : NodeInfo → Type 0) (xs : List NodeInfo) (y : NodeInfo) → All P xs → In y xs → P y
All-at P [] y a i = elim i [ ]
All-at P (x ∷ xs) y a (inl same) = rw (← same) a.0
All-at P (x ∷ xs) y a (inr later) = All-at P xs y a.1 later

-- The first item of a sorted list that passes is preferred.
find_first-IsPreferred :
    (p : NodeInfo → Bool) (xs : List NodeInfo) → IsSorted xs → IsPreferred p xs (find_first p xs)
unfolding find_first
find_first-IsPreferred p [] s = tt
find_first-IsPreferred p (x ∷ xs) s = elim (Bool-cases (p x)) [
  | inl passes ↦
      rw (find_first, passes)
        (
          inl refl,
          passes,
          (inr (IsRanked-self x), All-weaken _ _ (λ y h. inr (IsRanked-if x y h)) xs s.0),
        )
  | inr fails ↦
      rw (find_first, fails) (behind x xs fails (find_first p xs) (find_first-IsPreferred p xs s.1))
]
  where
    behind :
        (x : NodeInfo) (xs : List NodeInfo)
        → p x ≡ false
        → (o : Option NodeInfo) → IsPreferred p xs o
        → IsPreferred p (x ∷ xs) o
    behind x xs fails none h = (fails, h)
    behind x xs fails (some n) (i, passes, others) = (inr i, passes, (inl fails, others))

-- The first one that passes, of the nodes that are chosen and sorted.
IsPreferred-sorted :
    (q p : NodeInfo → Bool) (nodes sorted : List NodeInfo)
    → ((y : NodeInfo) → In y sorted ↔ In y (find_all q nodes))
    → IsSorted sorted
    → IsPreferred (λ n. q n && p n) nodes (find_first p sorted)
IsPreferred-sorted q p nodes sorted same s =
    of_sorted (find_first p sorted) (find_first-IsPreferred p sorted s)
  where
    of_sorted :
        (o : Option NodeInfo) → IsPreferred p sorted o → IsPreferred (λ n. q n && p n) nodes o
    of_sorted none h = All-In _ nodes (λ y i. elim (Bool-cases (q y)) [
      | inr other ↦ rw other refl
      | inl chosen ↦
          rw (chosen, All-at _ sorted y h ((same y).1 ((In-find_all q nodes y).1 (i, chosen)))) refl
    ])
    of_sorted (some n) (i, passes, others) =
        let (among, chosen) = (In-find_all q nodes n).0 ((same n).0 i) in
        (
          among,
          rw (chosen, passes) refl,
          All-In _ nodes (λ y j. elim (Bool-cases (q y)) [
            | inr other ↦ inl (rw other refl)
            | inl chosen_y ↦
                rw chosen_y
                  (All-at _ sorted y others ((same y).1 ((In-find_all q nodes y).1 (j, chosen_y))))
          ]),
        )

-- The indexes of the loop, one by one.
by_chain-put_nodes :
    (nodes : List NodeInfo) (t : NodeTables)
    → (foldl (λ t n. put_node n t) t nodes).real_chain_id_nodes
      ≡ foldl (λ m n. append_at (λ n. n.real_chain_id) n m) t.real_chain_id_nodes nodes
unfolding put_node
by_chain-put_nodes [] t = refl
by_chain-put_nodes (n ∷ nodes) t = by_chain-put_nodes nodes (put_node n t)

by_type-put_nodes :
    (nodes : List NodeInfo) (t : NodeTables)
    → (foldl (λ t n. put_node n t) t nodes).real_chain_id_type_nodes
      ≡ foldl
          (λ m n. append_at2 (λ n. n.real_chain_id) (λ n. n.node_type) n m)
          t.real_chain_id_type_nodes
          nodes
unfolding put_node
by_type-put_nodes [] t = refl
by_type-put_nodes (n ∷ nodes) t = by_type-put_nodes nodes (put_node n t)

first_node-eq : (xs : List NodeInfo) → first_node xs ≡ find_first (λ n. true) xs
unfolding first_node find_first
first_node-eq [] = refl
first_node-eq (x ∷ xs) = refl

and_true : (b : Bool) → (b && true) ≡ b
and_true true = refl
and_true false = refl

module _ (sort : List NodeInfo → List NodeInfo)
    (sort-In : (xs : List NodeInfo) (y : NodeInfo) → In y (sort xs) ↔ In y xs)
    (sort-IsSorted : (xs : List NodeInfo) → IsSorted (sort xs)) where
  sorted_slice :
      (o : Option (List NodeInfo)) (xs : List NodeInfo)
      → slice o ≡ xs
      → ((y : NodeInfo) → In y (slice (Option.map sort o)) ↔ In y xs)
        × IsSorted (slice (Option.map sort o))
  sorted_slice none xs e = (λ y. rw (← e) (λ i. i, λ i. i), tt)
  sorted_slice (some ys) xs e = (λ y. rw (← e) (sort-In ys y), sort-IsSorted ys)

  module _ (rows : Rows NodeInfo) (mgr : NodeInfoManager) (whole : rows.rows_err ≡ false) where
    loaded_tables :
        (load_all_nodes sort (some rows) mgr).tables
        ≡ sort_tables sort (foldl (λ t n. put_node n t) no_nodes (used_rows good rows.scans))
    unfolding load_all_nodes
    loaded_tables =
        rw (load_all_nodes, whole)
          (ap (sort_tables sort) (
            load_loop-eq-foldl good put_node (text "scan t_node_info row error") rows.scans no_nodes
              mgr.alerts))

    available-IsPreferred :
        (chain : ℤ)
        → IsPreferred
            (λ n. n.real_chain_id == chain && is_usable n)
            (used_rows good rows.scans)
            (get_available_node_by_real_chain_id (load_all_nodes sort (some rows) mgr) chain)
    unfolding get_available_node_by_real_chain_id sort_tables lookup
    available-IsPreferred chain =
        let nodes = used_rows good rows.scans in
        let index = (foldl (λ t n. put_node n t) no_nodes nodes).real_chain_id_nodes in
        let of_chain : slice (lookup chain index) ≡ find_all (λ n. n.real_chain_id == chain) nodes =
          ap (λ m. slice (lookup chain m)) (by_chain-put_nodes nodes no_nodes)
          ∙ slice-foldl-append_at (λ n. n.real_chain_id) chain nodes [] in
        let found =
          ap (λ t. find_first is_usable (slice (lookup chain t.real_chain_id_nodes))) loaded_tables
          ∙ ap (λ o. find_first is_usable (slice o)) (lookup-replace_all sort chain index) in
        let (same, s) = sorted_slice (lookup chain index) (find_all _ nodes) of_chain in
        subst (IsPreferred (λ n. n.real_chain_id == chain && is_usable n) nodes) (sym found) (
          IsPreferred-sorted (λ n. n.real_chain_id == chain) is_usable nodes
            (slice (Option.map sort (lookup chain index))) same s)

    best-IsPreferred :
        (chain node_type : ℤ)
        → IsPreferred
            (λ n. n.real_chain_id == chain && n.node_type == node_type)
            (used_rows good rows.scans)
            (get_best_node_by_real_chain_id_and_type
              (load_all_nodes sort (some rows) mgr)
              chain
              node_type)
    unfolding get_best_node_by_real_chain_id_and_type get_node_infos_by_real_chain_id_and_type
        sort_tables lookup lookup2
    best-IsPreferred chain node_type =
        let nodes = used_rows good rows.scans in
        let index = (foldl (λ t n. put_node n t) no_nodes nodes).real_chain_id_type_nodes in
        let q : NodeInfo → Bool = λ n. n.real_chain_id == chain && n.node_type == node_type in
        let of_type : slice (lookup2 chain node_type index) ≡ find_all q nodes =
          ap (λ m. slice (lookup2 chain node_type m)) (by_type-put_nodes nodes no_nodes)
          ∙ slice-foldl-append_at2 (λ n. n.real_chain_id) (λ n. n.node_type) chain node_type nodes
              [] in
        let found =
          ap (λ t. first_node (slice (lookup2 chain node_type t.real_chain_id_type_nodes)))
            loaded_tables
          ∙ ap (λ o. first_node (slice o)) (lookup2-replace_all sort chain node_type index)
          ∙ first_node-eq (slice (Option.map sort (lookup2 chain node_type index))) in
        let (same, s) = sorted_slice (lookup2 chain node_type index) (find_all q nodes) of_type in
        subst
          (λ r. IsPreferred r nodes (
            get_best_node_by_real_chain_id_and_type (load_all_nodes sort (some rows) mgr) chain
              node_type))
          (fun_ext (λ n. and_true (q n)))
          (subst (IsPreferred (λ n. q n && true) nodes) (sym found) (
            IsPreferred-sorted q (λ n. true) nodes
              (slice (Option.map sort (lookup2 chain node_type index))) same s))

    -- After a load that succeeds, with the scanned nodes: GetBestNodeByRealChainIdAndType returns a node
    -- of the chain and type, and GetAvailableNodeByRealChainId one of the chain with a positive
    -- usability, such that no other such node has a higher usability, or the same and a lower id; and
    -- each returns none only where there is no such node.
    pub load_all_nodes-IsPreferred :
        (chain node_type : ℤ)
        → IsPreferred
            (λ n. n.real_chain_id == chain && n.node_type == node_type)
            (used_rows good rows.scans)
            (get_best_node_by_real_chain_id_and_type
              (load_all_nodes sort (some rows) mgr)
              chain
              node_type)
          × IsPreferred
              (λ n. n.real_chain_id == chain && is_usable n)
              (used_rows good rows.scans)
              (get_available_node_by_real_chain_id (load_all_nodes sort (some rows) mgr) chain)
    load_all_nodes-IsPreferred chain node_type =
        (best-IsPreferred chain node_type, available-IsPreferred chain)
