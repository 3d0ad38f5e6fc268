-- ===== src/Loader/Tests/Nodes.antt =====
-- loader/node_info.go: the theorem at concrete nodes, with an insertion sort.
use utils_go.Base.{
  ◌≡◌, ◌↔◌, inl, inr, refl, none, some, true, false, List, [], ◌∷◌, if◌then◌else◌, ◌==◌, ◌&&◌,
  arith, All, In, Bool-cases,
}
use utils_go.Base.Int.{ℤ, pos, negsuc, int_eq}
use utils_go.Base.Text.{text}
use utils_go.Base.Nested.{insert2}
use utils_go.Loader.Rows.{Rows, good, used_rows}
use utils_go.Loader.NodeInfo.{
  NodeInfo, new_node_info_manager, is_usable, node_less, load_all_nodes,
  get_best_node_by_real_chain_id_and_type, get_available_node_by_real_chain_id,
}
use utils_go.Loader.NodeInfo.Preferred.{IsSorted, IsPreferred, load_all_nodes-IsPreferred}

abbrev insert_node : NodeInfo → List NodeInfo → List NodeInfo
insert_node x [] = x ∷ []
insert_node x (y ∷ ys) =
    let rest = insert_node x ys in if node_less y x then y ∷ rest else x ∷ y ∷ ys

abbrev sort_nodes : List NodeInfo → List NodeInfo
sort_nodes [] = []
sort_nodes (x ∷ xs) = insert_node x (sort_nodes xs)

insert_node-In :
    (x : NodeInfo) (ys : List NodeInfo) (z : NodeInfo) → In z (insert_node x ys) ↔ In z (x ∷ ys)
insert_node-In x [] z = (λ i. i, λ i. i)
insert_node-In x (y ∷ ys) z = elim (Bool-cases (node_less y x)) [
  | inl below ↦
      let (out, back) = insert_node-In x ys z in
      rw below (
        λ i. elim i [
          | inl e ↦ inr (inl e)
          | inr j ↦ elim (out j) [ inl e ↦ inl e | inr later ↦ inr (inr later) ]
        ],
        λ i. elim i [
          | inl e ↦ inr (back (inl e))
          | inr j ↦ elim j [ inl e ↦ inl e | inr later ↦ inr (back (inr later)) ]
        ],
      )
  | inr first ↦ rw first (λ i. i, λ i. i)
]

sort_nodes-In : (xs : List NodeInfo) (z : NodeInfo) → In z (sort_nodes xs) ↔ In z xs
sort_nodes-In [] z = (λ i. i, λ i. i)
sort_nodes-In (x ∷ xs) z =
    let (out, back) = sort_nodes-In xs z in
    let (out', back') = insert_node-In x (sort_nodes xs) z in
    (
      λ i. elim (out' i) [ inl e ↦ inl e | inr j ↦ inr (out j) ],
      λ i. back' (elim i [ inl e ↦ inl e | inr j ↦ inr (back j) ]),
    )

node_less_total : (x y : NodeInfo) → node_less y x ≡ true → node_less x y ≡ false
unfolding node_less
node_less_total x y h = ground arith

node_less_trans :
    (x y z : NodeInfo) → node_less y x ≡ false → node_less z y ≡ false → node_less z x ≡ false
unfolding node_less
node_less_trans x y z h k = ground arith

All-insert_node :
    (a x : NodeInfo) (ys : List NodeInfo)
    → node_less x a ≡ false
    → All (λ y. node_less y a ≡ false) ys
    → All (λ y. node_less y a ≡ false) (insert_node x ys)
All-insert_node a x [] h s = (h, tt)
All-insert_node a x (y ∷ ys) h s = elim (Bool-cases (node_less y x)) [
  | inl below ↦ rw below (s.0, All-insert_node a x ys h s.1)
  | inr first ↦ rw first (h, s)
]

All-above :
    (x y : NodeInfo) (ys : List NodeInfo)
    → node_less y x ≡ false
    → All (λ z. node_less z y ≡ false) ys
    → All (λ z. node_less z x ≡ false) ys
All-above x y [] h s = tt
All-above x y (z ∷ zs) h s = (node_less_trans x y z h s.0, All-above x y zs h s.1)

insert_node-IsSorted :
    (x : NodeInfo) (ys : List NodeInfo) → IsSorted ys → IsSorted (insert_node x ys)
insert_node-IsSorted x [] s = (tt, tt)
insert_node-IsSorted x (y ∷ ys) s = elim (Bool-cases (node_less y x)) [
  | inl below ↦
      rw below
        (All-insert_node y x ys (node_less_total x y below) s.0, insert_node-IsSorted x ys s.1)
  | inr first ↦ rw first ((first, All-above x y ys first s.0), s)
]

sort_nodes-IsSorted : (xs : List NodeInfo) → IsSorted (sort_nodes xs)
sort_nodes-IsSorted [] = tt
sort_nodes-IsSorted (x ∷ xs) = insert_node-IsSorted x (sort_nodes xs) (sort_nodes-IsSorted xs)

abbrev node : ℤ → ℤ → ℤ → ℤ → NodeInfo
node id chain kind usability = record {
  id = id;
  update_timestamp = pos 0;
  insert_timestamp = pos 0;
  chain_id = chain;
  real_chain_id = chain;
  rpc_url = text "https://rpc";
  node_type = kind;
  usability = usability;
}

abbrev node_rows : Rows NodeInfo
node_rows = record {
  scans =
      some (node (pos 1) (pos 10) (pos 0) (pos 5))
      ∷ none
      ∷ some (node (pos 2) (pos 10) (pos 1) (pos 9))
      ∷ some (node (pos 3) (pos 10) (pos 0) (pos 7))
      ∷ some (node (pos 4) (pos 20) (pos 0) (negsuc 0))
      ∷ some (node (pos 0) (pos 10) (pos 0) (pos 7))
      ∷ [];
  rows_err = false;
}

load_all_nodes-IsPreferred_example :
    IsPreferred
      (λ n. n.real_chain_id == pos 10 && n.node_type == pos 0)
      (used_rows good node_rows.scans)
      (some (node (pos 0) (pos 10) (pos 0) (pos 7)))
    × IsPreferred
        (λ n. n.real_chain_id == pos 10 && is_usable n)
        (used_rows good node_rows.scans)
        (some (node (pos 2) (pos 10) (pos 1) (pos 9)))
unfolding load_all_nodes get_best_node_by_real_chain_id_and_type get_available_node_by_real_chain_id
    node_less insert2
load_all_nodes-IsPreferred_example =
    load_all_nodes-IsPreferred sort_nodes sort_nodes-In sort_nodes-IsSorted node_rows
      new_node_info_manager refl (pos 10) (pos 0)
