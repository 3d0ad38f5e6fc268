-- ===== src/Loader/Aggregator/Routes.antt =====
-- loader/aggregator_route.go: what the route and segment queries return after LoadAll.
use mathlib.Core.List.{foldl, append-nil, append_assoc}
use utils_go.Base.{
  ◌≡◌, ◌≢◌, ◌↔◌, inl, inr, Option-cases, refl, sym, ap, ◌∙◌, Option, none, some, Bool, List, [],
  ◌∷◌, ◌++◌, if◌then◌else◌, ◌==◌, ◌&&◌, arith,
}
use utils_go.Base.Int.{ℤ, int_eq, int_beq_iff}
use utils_go.Base.Text.{Text, text, text_eq, trim_space, to_upper}
use utils_go.Base.GoMap.{GoMap, lookup, lookup-insert}
use utils_go.Base.Nested.{lookup2, lookup2-insert2}
use utils_go.Base.Find.{find_all, find_all-both}
use utils_go.Loader.Rows.{good, used_rows, load_loop, load_loop-eq-foldl}
use utils_go.Loader.Aggregator.{
  AggregatorConfig, RouteConfig, FeeSegment, AggregatorManager, get_routes_by_chain_pair_and_symbol,
  filter_symbol, get_fee_segments,
}
use utils_go.Loader.Aggregator.Load.{
  ChainConfigRow, RouteTables, no_routes_yet, append_to, put_route, put_segment, loaded,
  load_aggregator_configs, load_aggregate_chain_configs, load_route_configs, load_fee_segments,
  load_all,
}

-- The slice that a map holds at a key, nil where it holds none.
abbrev slice : {A : Type 0} → Option (List A) → List A
slice none = []
slice (some xs) = xs

abbrev is_pair : ℤ → ℤ → RouteConfig → Bool
is_pair from to r = r.from_chain_id == from && r.to_chain_id == to

slice-append_to : {A : Type 0} (o : Option (List A)) (a : A) → append_to o a ≡ slice o ++ a ∷ []
slice-append_to none a = refl
slice-append_to (some xs) a = refl

find_all-cons :
    {A : Type 0} (p : A → Bool) (x : A) (xs : List A)
    → find_all p (x ∷ xs) ≡ (if p x then x ∷ [] else []) ++ find_all p xs
unfolding find_all
find_all-cons p x xs = ground arith

put_route_lookup :
    (r : RouteConfig) (t : RouteTables) (from to : ℤ)
    → slice (lookup2 from to (put_route r t).by_chain_pair)
      ≡ slice (lookup2 from to t.by_chain_pair) ++ (if is_pair from to r then r ∷ [] else [])
unfolding put_route
put_route_lookup r t from to =
    let old = slice (lookup2 from to t.by_chain_pair) in
    rw
      (lookup2-insert2 r.from_chain_id from r.to_chain_id to
        (append_to (lookup2 r.from_chain_id r.to_chain_id t.by_chain_pair) r) t.by_chain_pair)
      (ground (
        arith,
        append-nil old,
        int_beq_iff r.from_chain_id from,
        int_beq_iff r.to_chain_id to,
        slice-append_to (lookup2 r.from_chain_id r.to_chain_id t.by_chain_pair) r,
      ))

put_routes_lookup :
    (rs : List RouteConfig) (t : RouteTables) (from to : ℤ)
    → slice (lookup2 from to (foldl (λ t r. put_route r t) t rs).by_chain_pair)
      ≡ slice (lookup2 from to t.by_chain_pair) ++ find_all (is_pair from to) rs
unfolding find_all
put_routes_lookup [] t from to = sym (append-nil _)
put_routes_lookup (r ∷ rs) t from to =
    let old = slice (lookup2 from to t.by_chain_pair) in
    put_routes_lookup rs (put_route r t) from to
    ∙ ap (λ xs. xs ++ find_all (is_pair from to) rs) (put_route_lookup r t from to)
    ∙ append_assoc old (if is_pair from to r then r ∷ [] else []) (find_all (is_pair from to) rs)
    ∙ ap (λ xs. old ++ xs) (sym (find_all-cons (is_pair from to) r rs))

put_segment-lookup :
    (s : FeeSegment) (m : GoMap ℤ (List FeeSegment)) (id : ℤ)
    → slice (lookup id (put_segment s m))
      ≡ slice (lookup id m) ++ (if s.route_id == id then s ∷ [] else [])
unfolding put_segment
put_segment-lookup s m id =
    let old = slice (lookup id m) in
    rw (lookup-insert s.route_id id (append_to (lookup s.route_id m) s) m) (
      ground
        (arith, append-nil old, int_beq_iff s.route_id id, slice-append_to (lookup s.route_id m) s))

put_segments_lookup :
    (segs : List FeeSegment) (m : GoMap ℤ (List FeeSegment)) (id : ℤ)
    → slice (lookup id (foldl (λ t s. put_segment s t) m segs))
      ≡ slice (lookup id m) ++ find_all (λ s. s.route_id == id) segs
unfolding find_all
put_segments_lookup [] m id = sym (append-nil _)
put_segments_lookup (s ∷ segs) m id =
    let old = slice (lookup id m) in
    let later = find_all (λ s. s.route_id == id) segs in
    put_segments_lookup segs (put_segment s m) id
    ∙ ap (λ xs. xs ++ later) (put_segment-lookup s m id)
    ∙ append_assoc old (if s.route_id == id then s ∷ [] else []) later
    ∙ ap (λ xs. old ++ xs) (sym (find_all-cons (λ s. s.route_id == id) s segs))

filter_symbol-eq :
    (up : Text) (rs : List RouteConfig)
    → filter_symbol up rs ≡ find_all (λ r. to_upper r.from_token_symbol == up) rs
unfolding filter_symbol find_all
filter_symbol-eq up [] = refl
filter_symbol-eq up (r ∷ rs) = ground (arith, filter_symbol-eq up rs)

symbol_routes :
    (mgr : AggregatorManager) (from to : ℤ) (symbol : Text)
    → get_routes_by_chain_pair_and_symbol mgr from to symbol
      ≡ find_all
          (λ r. to_upper r.from_token_symbol == to_upper (trim_space symbol))
          (slice (lookup2 from to mgr.routes_by_chain_pair))
unfolding get_routes_by_chain_pair_and_symbol find_all
symbol_routes mgr from to symbol = elim (Option-cases (lookup2 from to mgr.routes_by_chain_pair)) [
  | inl e ↦ rw (e, get_routes_by_chain_pair_and_symbol) refl
  | inr (rs, e) ↦
      rw (e, get_routes_by_chain_pair_and_symbol)
        (filter_symbol-eq (to_upper (trim_space symbol)) rs)
]

segments_slice :
    (mgr : AggregatorManager) (id : ℤ)
    → get_fee_segments mgr id ≡ slice (lookup id mgr.fee_segments_by_route_id)
unfolding get_fee_segments
segments_slice mgr id = elim (Option-cases (lookup id mgr.fee_segments_by_route_id)) [
  | inl e ↦ rw (e, get_fee_segments) refl
  | inr (rs, e) ↦ rw (e, get_fee_segments) refl
]

-- The routes of a manager whose index was filled by a load.
listed_routes :
    (mgr : AggregatorManager) (msg : Text) (rows : List (Option RouteConfig)) (alerts : List Text)
    (from to : ℤ) (symbol : Text)
    → mgr.routes_by_chain_pair
      ≡ (load_loop good put_route msg rows no_routes_yet alerts).0.by_chain_pair
    → get_routes_by_chain_pair_and_symbol mgr from to symbol
      ≡ find_all
          (λ r. is_pair from to r && to_upper r.from_token_symbol == to_upper (trim_space symbol))
          (used_rows good rows)
unfolding lookup2 lookup
listed_routes mgr msg rows alerts from to symbol e =
    symbol_routes mgr from to symbol
    ∙ ap
        (λ m.
          find_all (λ r. to_upper r.from_token_symbol == to_upper (trim_space symbol))
            (slice (lookup2 from to m)))
        (e
          ∙ ap (λ (t : RouteTables). t.by_chain_pair)
              (load_loop-eq-foldl good put_route msg rows no_routes_yet alerts))
    ∙ ap (find_all (λ r. to_upper r.from_token_symbol == to_upper (trim_space symbol)))
        (put_routes_lookup (used_rows good rows) no_routes_yet from to)
    ∙ find_all-both (λ r. to_upper r.from_token_symbol == to_upper (trim_space symbol))
        (is_pair from to) (used_rows good rows)

-- The segments of a manager whose index was filled by a load.
listed_segments :
    (mgr : AggregatorManager) (msg : Text) (rows : List (Option FeeSegment)) (alerts : List Text)
    (id : ℤ)
    → mgr.fee_segments_by_route_id ≡ (load_loop good put_segment msg rows [] alerts).0
    → get_fee_segments mgr id ≡ find_all (λ s. s.route_id == id) (used_rows good rows)
unfolding lookup
listed_segments mgr msg rows alerts id e =
    segments_slice mgr id
    ∙ ap (λ m. slice (lookup id m)) (e ∙ load_loop-eq-foldl good put_segment msg rows [] alerts)
    ∙ put_segments_lookup (used_rows good rows) [] id

-- LoadAll returns nil exactly when all four queries succeed.
pub load_all-ok :
    (configs : Option (List (Option AggregatorConfig)))
    (chains : Option (List (Option ChainConfigRow))) (routes : Option (List (Option RouteConfig)))
    (segments : Option (List (Option FeeSegment))) (mgr : AggregatorManager)
    → ((after : AggregatorManager) × (load_all configs chains routes segments mgr ≡ loaded after))
      ↔ ((configs ≢ none) × (chains ≢ none) × (routes ≢ none) × (segments ≢ none))
unfolding load_all load_aggregator_configs load_aggregate_chain_configs load_route_configs
    load_fee_segments
load_all-ok none chains routes segments mgr = (λ h. cc, λ h. absurd (h.0 refl))
load_all-ok (some cs) none routes segments mgr = (λ h. cc, λ h. absurd (h.1 refl))
load_all-ok (some cs) (some chs) none segments mgr = (λ h. cc, λ h. absurd (h.2 refl))
load_all-ok (some cs) (some chs) (some rs) none mgr = (λ h. cc, λ h. absurd (h.3 refl))
load_all-ok (some cs) (some chs) (some rs) (some segs) mgr =
    (λ h. ((λ e. cc), (λ e. cc), (λ e. cc), (λ e. cc)), λ h. (_, refl))

-- After a LoadAll whose queries succeed, GetRoutesByChainPairAndSymbol returns the scanned routes of
-- the chain pair whose symbol is the one asked for, up to case and outer spaces, and GetFeeSegments
-- the scanned segments of the route, each in the order of the rows.
pub load_all-lists :
    (configs : List (Option AggregatorConfig)) (chains : List (Option ChainConfigRow))
    (routes : List (Option RouteConfig)) (segments : List (Option FeeSegment))
    (mgr : AggregatorManager) (from to id : ℤ) (symbol : Text)
    → (after : AggregatorManager) × (load_all
          (some configs)
          (some chains)
          (some routes)
          (some segments)
          mgr
        ≡ loaded after)
      × (get_routes_by_chain_pair_and_symbol after from to symbol
          ≡ find_all
              (λ r.
                (r.from_chain_id == from && r.to_chain_id == to)
                && to_upper r.from_token_symbol == to_upper (trim_space symbol))
              (used_rows good routes))
      × (get_fee_segments after id ≡ find_all (λ s. s.route_id == id) (used_rows good segments))
unfolding load_all load_aggregator_configs load_aggregate_chain_configs load_route_configs
    load_fee_segments
load_all-lists configs chains routes segments mgr from to id symbol = (
  _,
  refl,
  listed_routes _ (text "scan route config error") routes _ from to symbol refl,
  listed_segments _ (text "scan fee segment error") segments _ id refl,
)
