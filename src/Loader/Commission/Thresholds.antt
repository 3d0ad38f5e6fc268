-- ===== src/Loader/Commission/Thresholds.antt =====
-- loader/channel_commission_ratio.go: the ratio that GetRatioByChannelidAndCount finds after a load.
use mathlib.Core.Option
use mathlib.Core.Path.{subst}
use mathlib.Core.List.{foldl, append-nil, append_assoc}
use utils_go.Base.{
  ◌≡◌, ◌↔◌, ◌⊎◌, inl, inr, refl, sym, ap, ◌∙◌, Option, none, some, false, List, [], ◌∷◌, ◌++◌,
  if◌then◌else◌, ◌==◌, arith, Bool-cases, All, In,
}
use utils_go.Base.Int.{ℤ, int_eq, ◌≤ℤ◌, ◌<ℤ◌, ltb_ℤ, ltb_ℤ→lt, ltb_ℤ-false}
use utils_go.Base.Text.{text}
use utils_go.Base.GoMap.{Distinct, lookup, lookup-insert, insert-Distinct, lookup-update_all}
use utils_go.Base.Outcome.{ok}
use utils_go.Loader.Rows.{Rows, good, used_rows, load_loop-eq-foldl}
use utils_go.Loader.Commission.{
  ChannelCommissionRatio, ChannelCommissionRatioManager, CommissionRow, last_ratio, ratio_loop,
  get_ratio_by_channelid_and_count, Collected, ratio_arr, put_ratio, load_all_commission_ratio,
}

-- The thresholds do not fall along the list.
abbrev pub IsSorted : List ChannelCommissionRatio → Type 0
IsSorted [] = Unit
IsSorted (x ∷ xs) = All (λ y. x.tx_count ≤ℤ y.tx_count) xs × IsSorted xs

-- `x` has the least threshold above the count; or no threshold is above it, and `x` has the greatest.
abbrev pub IsPicked : ℤ → ChannelCommissionRatio → List ChannelCommissionRatio → Type 0
IsPicked count x xs =
    ((count <ℤ x.tx_count)
      × ((y : ChannelCommissionRatio) → In y xs → count <ℤ y.tx_count → x.tx_count ≤ℤ y.tx_count))
    ⊎ ((y : ChannelCommissionRatio) → In y xs → (y.tx_count ≤ℤ count) × (y.tx_count ≤ℤ x.tx_count))

All-In :
    (P : ChannelCommissionRatio → Type 0) (xs : List ChannelCommissionRatio)
    (y : ChannelCommissionRatio)
    → All P xs
    → In y xs
    → P y
All-In P [] y h i = elim i [ ]
All-In P (x ∷ xs) y h (inl same) = rw (← same) h.0
All-In P (x ∷ xs) y h (inr later) = All-In P xs y h.1 later

-- The last ratio of a sorted list that is not empty is of a greatest threshold.
last_ratio-greatest :
    (x : ChannelCommissionRatio) (xs : List ChannelCommissionRatio)
    → IsSorted (x ∷ xs)
    → (z : ChannelCommissionRatio) × In z (x ∷ xs)
      × (last_ratio (x ∷ xs) ≡ ok z.ratio)
      × All (λ y. y.tx_count ≤ℤ z.tx_count) (x ∷ xs)
unfolding last_ratio
last_ratio-greatest x [] s = (x, inl refl, refl, (omega arith, tt))
last_ratio-greatest x (y ∷ ys) s =
    let (z, i, e, above) = last_ratio-greatest y ys s.1 in
    let low : x.tx_count ≤ℤ y.tx_count = s.0.0 in
    let high : y.tx_count ≤ℤ z.tx_count = above.0 in (z, inr i, e, (omega arith, above))

-- The loop over a sorted list stops at the least threshold above the count, or goes through it.
ratio_loop-cases :
    (count : ℤ) (whole rest : List ChannelCommissionRatio)
    → IsSorted rest
    → ((z : ChannelCommissionRatio) × In z rest
        × (ratio_loop whole count rest ≡ ok z.ratio)
        × (count <ℤ z.tx_count)
        × All (λ y. (y.tx_count ≤ℤ count) ⊎ (z.tx_count ≤ℤ y.tx_count)) rest)
      ⊎ ((ratio_loop whole count rest ≡ last_ratio whole) × All (λ y. y.tx_count ≤ℤ count) rest)
unfolding ratio_loop
ratio_loop-cases count whole [] s = inr (refl, tt)
ratio_loop-cases count whole (x ∷ xs) s = elim (Bool-cases (ltb_ℤ count x.tx_count)) [
  | inl below ↦ inl (
    x,
    inl refl,
    rw below refl,
    ltb_ℤ→lt count x.tx_count below,
    (inr (omega arith), above xs s.0),
  )
  | inr over ↦
      let past : x.tx_count ≤ℤ count = ltb_ℤ-false count x.tx_count over in
      elim (ratio_loop-cases count whole xs s.1) [
        | inl (z, i, e, low, others) ↦ inl (z, inr i, rw over e, low, (inl past, others))
        | inr (e, others) ↦ inr (rw over e, (past, others))
      ]
]
  where
    above :
        (ys : List ChannelCommissionRatio)
        → All (λ y. x.tx_count ≤ℤ y.tx_count) ys
        → All (λ y. (y.tx_count ≤ℤ count) ⊎ (x.tx_count ≤ℤ y.tx_count)) ys
    above [] h = tt
    above (y ∷ ys) h = (inr h.0, above ys h.1)

picked :
    (count : ℤ) (x : ChannelCommissionRatio) (xs : List ChannelCommissionRatio)
    → IsSorted (x ∷ xs)
    → (z : ChannelCommissionRatio) × In z (x ∷ xs)
      × (ratio_loop (x ∷ xs) count (x ∷ xs) ≡ ok z.ratio)
      × IsPicked count z (x ∷ xs)
picked count x xs s = elim (ratio_loop-cases count (x ∷ xs) (x ∷ xs) s) [
  | inl (z, i, e, low, others) ↦ (
    z,
    i,
    e,
    inl (
      low,
      λ y j above.
          elim (All-In (λ y. (y.tx_count ≤ℤ count) ⊎ (z.tx_count ≤ℤ y.tx_count)) (x ∷ xs) y others
            j) [ inl past ↦ omega arith | inr fine ↦ fine ],
    ),
  )
  | inr (e, others) ↦
      let (z, i, last, above) = last_ratio-greatest x xs s in
      (
        z,
        i,
        e ∙ last,
        inr (λ y j. (
          All-In (λ y. y.tx_count ≤ℤ count) (x ∷ xs) y others j,
          All-In (λ y. y.tx_count ≤ℤ z.tx_count) (x ∷ xs) y above j,
        )),
      )
]

abbrev as_ratio : CommissionRow → ChannelCommissionRatio
as_ratio row = record { tx_count = row.tx_count; ratio = row.ratio }

-- The thresholds of a channel, in the order of the rows.
abbrev pub thresholds : ℤ → List CommissionRow → List ChannelCommissionRatio
thresholds channel [] = []
thresholds channel (row ∷ rows) =
    let rest = thresholds channel rows in
    if row.channel_id == channel then as_ratio row ∷ rest else rest

-- An array that is made for its first item.
abbrev array_of : List ChannelCommissionRatio → Option (List ChannelCommissionRatio)
array_of [] = none
array_of (x ∷ xs) = some (x ∷ xs)

array_of-snoc :
    (xs : List ChannelCommissionRatio) (x : ChannelCommissionRatio)
    → array_of (xs ++ x ∷ []) ≡ some (ratio_arr (array_of xs) ++ x ∷ [])
array_of-snoc [] x = refl
array_of-snoc (y ∷ ys) x = refl

arrays-put_ratio :
    (row : CommissionRow) (c : Collected) (channel : ℤ) (before : List ChannelCommissionRatio)
    → lookup channel c.arrays ≡ array_of before
    → lookup channel (put_ratio row c).arrays ≡ array_of (before ++ thresholds channel (row ∷ []))
unfolding put_ratio
arrays-put_ratio row c channel before h = elim (Bool-cases (row.channel_id == channel)) [
  | inl same ↦
      let e : row.channel_id ≡ channel = (int_eq.equal_iff row.channel_id channel).0 same in
      rw
        (
          lookup-insert row.channel_id channel
              (ratio_arr (lookup row.channel_id c.arrays) ++ as_ratio row ∷ []) c.arrays,
          same,
          e,
          h,
        )
        (sym (array_of-snoc before (as_ratio row)))
  | inr other ↦
      rw
        (
          lookup-insert row.channel_id channel
              (ratio_arr (lookup row.channel_id c.arrays) ++ as_ratio row ∷ []) c.arrays,
          other,
          append-nil before,
        )
        h
]

arrays-put_ratios :
    (rows : List CommissionRow) (c : Collected) (channel : ℤ) (before : List ChannelCommissionRatio)
    → lookup channel c.arrays ≡ array_of before
    → lookup channel (foldl (λ c row. put_ratio row c) c rows).arrays
      ≡ array_of (before ++ thresholds channel rows)
arrays-put_ratios [] c channel before h = h ∙ ap array_of (sym (append-nil before))
arrays-put_ratios (row ∷ rows) c channel before h =
    arrays-put_ratios rows (put_ratio row c) channel (before ++ thresholds channel (row ∷ []))
      (arrays-put_ratio row c channel before h)
    ∙ ap array_of (
        append_assoc before (thresholds channel (row ∷ [])) (thresholds channel rows)
        ∙ ap (λ xs. before ++ xs) (ground arith))

put_ratios-Distinct :
    (rows : List CommissionRow) (c : Collected)
    → Distinct c.arrays
    → Distinct (foldl (λ c row. put_ratio row c) c rows).arrays
unfolding put_ratio
put_ratios-Distinct [] c d = d
put_ratios-Distinct (row ∷ rows) c d = put_ratios-Distinct rows (put_ratio row c) (
    insert-Distinct row.channel_id (ratio_arr (lookup row.channel_id c.arrays) ++ as_ratio row ∷ [])
      c.arrays d)

module _ (sort : List ChannelCommissionRatio → List ChannelCommissionRatio)
    (sort-In : (xs : List ChannelCommissionRatio) (x : ChannelCommissionRatio)
      → In x (sort xs) ↔ In x xs)
    (sort-IsSorted : (xs : List ChannelCommissionRatio) → IsSorted (sort xs))
    (channel count : ℤ) where
  -- The channel has no threshold and there is no ratio, or the ratio is that of a picked threshold.
  abbrev pub FindsRatio : ChannelCommissionRatioManager → List ChannelCommissionRatio → Type 0
  FindsRatio mgr ts =
      ((ts ≡ []) × (get_ratio_by_channelid_and_count mgr channel count ≡ ok none))
      ⊎ ((z : ChannelCommissionRatio) × In z ts
          × (get_ratio_by_channelid_and_count mgr channel count ≡ ok (some z.ratio))
          × IsPicked count z ts)

  IsPicked-sort :
      (xs : List ChannelCommissionRatio) (z : ChannelCommissionRatio)
      → IsPicked count z (sort xs)
      → IsPicked count z xs
  IsPicked-sort xs z (inl (low, least)) = inl (low, λ y i. least y ((sort-In xs y).1 i))
  IsPicked-sort xs z (inr most) = inr (λ y i. most y ((sort-In xs y).1 i))

  sorted-FindsRatio :
      (mgr : ChannelCommissionRatioManager) (x : ChannelCommissionRatio)
      (xs ys : List ChannelCommissionRatio)
      → lookup channel mgr.channelid_to_ratio_arr ≡ some ys
      → sort (x ∷ xs) ≡ ys
      → FindsRatio mgr (x ∷ xs)
  unfolding get_ratio_by_channelid_and_count
  sorted-FindsRatio mgr x xs [] found e = absurd (rw e at (sort-In (x ∷ xs) x).1 (inl refl))
  sorted-FindsRatio mgr x xs (y ∷ ys) found e =
      let (z, i, answer, best) = picked count y ys (subst IsSorted e (sort-IsSorted (x ∷ xs))) in
      inr (
        z,
        (sort-In (x ∷ xs) z).0 (subst (λ l. In z l) (sym e) i),
        rw (found, get_ratio_by_channelid_and_count, answer) refl,
        IsPicked-sort (x ∷ xs) z (subst (λ l. IsPicked count z l) (sym e) best),
      )

  listed-FindsRatio :
      (mgr : ChannelCommissionRatioManager) (ts : List ChannelCommissionRatio)
      → lookup channel mgr.channelid_to_ratio_arr
        ≡ Option.bind (array_of ts) (λ arr. some (sort arr))
      → FindsRatio mgr ts
  unfolding get_ratio_by_channelid_and_count Option.bind
  listed-FindsRatio mgr [] found = inl (refl, rw (found, get_ratio_by_channelid_and_count) refl)
  listed-FindsRatio mgr (x ∷ xs) found = sorted-FindsRatio mgr x xs (sort (x ∷ xs)) found refl

  -- After a load whose query and rows succeed, GetRatioByChannelidAndCount does not panic. It finds no
  -- ratio for a channel without rows, and else the ratio of the least threshold of the channel above
  -- the count, or of a greatest threshold where none is above the count.
  pub load_all_commission_ratio-FindsRatio :
      (rows : Rows CommissionRow) (mgr : ChannelCommissionRatioManager)
      → rows.rows_err ≡ false
      → FindsRatio
          (load_all_commission_ratio sort (some rows) mgr)
          (thresholds channel (used_rows good rows.scans))
  unfolding load_all_commission_ratio Option.bind lookup
  load_all_commission_ratio-FindsRatio rows mgr fine =
      let start : Collected = record { counts = []; arrays = [] } in
      let used = used_rows good rows.scans in
      listed-FindsRatio (load_all_commission_ratio sort (some rows) mgr) (thresholds channel used) (
        rw
          (
            fine,
            load_loop-eq-foldl good put_ratio (text "scan t_channel_commission_ratio row error")
                rows.scans start mgr.alerts,
            lookup-update_all (λ (_ : ℤ) arr. some (sort arr)) channel
                (foldl (λ c row. put_ratio row c) start used).arrays
                (put_ratios-Distinct used start tt),
            arrays-put_ratios used start channel [] refl,
          )
          refl)
