-- ===== src/Loader/Aggregator/Best.antt =====
-- loader/aggregator_route.go: FindBestRoute returns a cheapest route of those that fit.
use utils_go.Base.{
  ◌≡◌, ◌≢◌, ◌⊎◌, inl, inr, refl, sym, ap, ◌∙◌, Option, none, some, false, List, [], ◌∷◌, arith,
  Option-cases, Bool-cases, All, eq_of_some,
}
use utils_go.Base.Int.{ℤ, pos, ltb_ℤ, leb_ℤ, ◌≤ℤ◌, ◌<ℤ◌, ltb_ℤ-false, ltb_ℤ→lt}
use utils_go.Base.Text.{Text}
use utils_go.Loader.Aggregator.{
  RouteConfig, BestRouteResult, AggregatorManager, Rat, RatText,
  get_routes_by_chain_pair_and_symbol, price_route, keep_lower, best_of, found, not_found,
  no_segment, find_best_route,
}

-- The total fee of a result.
abbrev pub fee_of : BestRouteResult → ℤ
fee_of b = b.fee_result.total_gas_fee

module _ (rt : RatText) (mgr : AggregatorManager) (amt : Rat) (decimals : ℤ) where
  -- The routes of a list cost at least the fee of `b`.
  abbrev pub NoneCheaper : BestRouteResult → List RouteConfig → Type 0
  NoneCheaper b = All (λ r.
      (x : BestRouteResult) → price_route rt mgr amt decimals r ≡ some x → fee_of b ≤ℤ fee_of x)

  -- `b` is the result of one of the routes.
  abbrev pub FromRoutes : BestRouteResult → List RouteConfig → Type 0
  FromRoutes b [] = ⊥
  FromRoutes b (r ∷ rs) = (price_route rt mgr amt decimals r ≡ some b) ⊎ FromRoutes b rs

  keep_lower-some :
      (best : BestRouteResult) (o : Option BestRouteResult)
      → (b : BestRouteResult) × (keep_lower (some best) o ≡ some b)
        × (fee_of b ≤ℤ fee_of best)
        × ((x : BestRouteResult) → o ≡ some x → fee_of b ≤ℤ fee_of x)
        × ((b ≡ best) ⊎ (o ≡ some b))
  unfolding keep_lower
  keep_lower-some best none = (best, refl, omega arith, (λ x h. absurd (ground arith)), inl refl)
  keep_lower-some best (some y) = elim (Bool-cases (ltb_ℤ (fee_of y) (fee_of best))) [
    | inl cheaper ↦
        let less : fee_of y <ℤ fee_of best = ltb_ℤ→lt (fee_of y) (fee_of best) cheaper in
        (y, rw cheaper refl, omega arith, (λ x h. rw (eq_of_some y x h) (omega arith)), inr refl)
    | inr dearer ↦
        let less : fee_of best ≤ℤ fee_of y = ltb_ℤ-false (fee_of y) (fee_of best) dearer in
        (best, rw dearer refl, omega arith, (λ x h. rw (← eq_of_some y x h) less), inl refl)
  ]

  origin :
      (r : RouteConfig) (rs : List RouteConfig) (best m b : BestRouteResult)
      → (m ≡ best) ⊎ (price_route rt mgr amt decimals r ≡ some m)
      → (b ≡ m) ⊎ FromRoutes b rs
      → (b ≡ best) ⊎ FromRoutes b (r ∷ rs)
  origin r rs best m b from_m (inr later) = inr (inr later)
  origin r rs best m b (inl e) (inl e') = inl (e' ∙ e)
  origin r rs best m b (inr e) (inl e') = inr (inl (e ∙ ap some (sym e')))

  best_of-some :
      (rs : List RouteConfig) (best : BestRouteResult)
      → (b : BestRouteResult) × (best_of rt mgr amt decimals rs (some best) ≡ some b)
        × (fee_of b ≤ℤ fee_of best)
        × NoneCheaper b rs
        × ((b ≡ best) ⊎ FromRoutes b rs)
  unfolding best_of
  best_of-some [] best = (best, refl, omega arith, tt, inl refl)
  best_of-some (r ∷ rs) best =
      let (m, kept, m-best, m-priced, from_m) =
        keep_lower-some best (price_route rt mgr amt decimals r) in
      let (b, done, b-m, none_cheaper, from_b) = best_of-some rs m in
      (
        b,
        rw kept done,
        omega arith,
        ((λ x h. let low : fee_of m ≤ℤ fee_of x = m-priced x h in omega arith), none_cheaper),
        origin r rs best m b from_m from_b,
      )

  -- The loop from the start: nothing where no route has a result, and else a cheapest result.
  best_of-cases :
      (rs : List RouteConfig)
      → ((best_of rt mgr amt decimals rs none ≡ none)
          × All (λ r. price_route rt mgr amt decimals r ≡ none) rs)
        ⊎ ((b : BestRouteResult) × (best_of rt mgr amt decimals rs none ≡ some b)
            × NoneCheaper b rs
            × FromRoutes b rs)
  unfolding best_of keep_lower
  best_of-cases [] = inl (refl, tt)
  best_of-cases (r ∷ rs) = elim (Option-cases (price_route rt mgr amt decimals r)) [
    | inl skipped ↦ elim (best_of-cases rs) [
      | inl (done, all_none) ↦ inl (rw skipped done, (skipped, all_none))
      | inr (b, done, none_cheaper, from_b) ↦
          inr (b, rw skipped done, ((λ x h. absurd (ground arith)), none_cheaper), inr from_b)
    ]
    | inr (y, priced) ↦
        let (b, done, b-y, none_cheaper, from_b) = best_of-some rs y in
        inr (
          b,
          rw priced done,
          ((λ x h. rw (← eq_of_some y x (sym priced ∙ h)) b-y), none_cheaper),
          (elim from_b [ inl same ↦ inl (priced ∙ ap some (sym same)) | inr later ↦ inr later ]),
        )
  ]

module _ (rt : RatText) (mgr : AggregatorManager) (from to : ℤ) (symbol amount_ui : Text)
    (decimals : ℤ) where
  -- FindBestRoute reports that no segment matches, and no route has a result; or it returns the
  -- result of a route, and no route has a result with a lower total fee.
  abbrev pub AnswersFor : Rat → List RouteConfig → Type 0
  AnswersFor amt rs =
      ((find_best_route rt mgr from to symbol amount_ui decimals ≡ not_found no_segment)
        × All (λ r. price_route rt mgr amt decimals r ≡ none) rs)
      ⊎ ((b : BestRouteResult) × (find_best_route rt mgr from to symbol amount_ui decimals
            ≡ found b)
          × NoneCheaper rt mgr amt decimals b rs
          × FromRoutes rt mgr amt decimals b rs)

  answers :
      (amt : Rat) (rs : List RouteConfig)
      → rt.set_string amount_ui ≡ some amt
      → leb_ℤ amt.num (pos 0) ≡ false
      → rs ≢ []
      → get_routes_by_chain_pair_and_symbol mgr from to symbol ≡ rs
      → AnswersFor amt rs
  unfolding find_best_route
  answers amt [] parsed positive some_routes e = absurd (some_routes refl)
  answers amt (r ∷ rs) parsed positive some_routes e =
      elim (best_of-cases rt mgr amt decimals (r ∷ rs)) [
        | inl (done, all_none) ↦
            inl (rw (e, find_best_route, parsed, done, positive) refl, all_none)
        | inr (b, done, none_cheaper, from_b) ↦
            inr (b, rw (e, find_best_route, parsed, done, positive) refl, none_cheaper, from_b)
      ]

  -- For a positive amount and a lane with routes of the token, FindBestRoute returns a result as
  -- soon as one of the routes has one: the result of a route, and no route has a result with a lower
  -- total fee. Where no route has a result it reports that no segment matches.
  pub find_best_route-least :
      (amt : Rat)
      → rt.set_string amount_ui ≡ some amt
      → leb_ℤ amt.num (pos 0) ≡ false
      → get_routes_by_chain_pair_and_symbol mgr from to symbol ≢ []
      → AnswersFor amt (get_routes_by_chain_pair_and_symbol mgr from to symbol)
  find_best_route-least amt parsed positive some_routes =
      answers amt (get_routes_by_chain_pair_and_symbol mgr from to symbol) parsed positive
        some_routes refl
