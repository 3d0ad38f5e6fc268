-- ===== src/Loader/Tests/Ratios.antt =====
-- loader/channel_commission_ratio.go: the theorem at concrete thresholds, with an insertion sort.
use utils_go.Base.{
  ◌↔◌, inl, inr, refl, none, some, false, List, [], ◌∷◌, if◌then◌else◌, arith, All, In, Bool-cases,
}
use utils_go.Base.Int.{ℤ, pos, ltb_ℤ, ltb_ℤ→lt, ltb_ℤ-false, ◌≤ℤ◌}
use utils_go.Loader.Rows.{Rows, good, used_rows}
use utils_go.Loader.Commission.{
  ChannelCommissionRatio, CommissionRow, new_channel_commission_ratio_manager,
  load_all_commission_ratio,
}
use utils_go.Loader.Commission.Thresholds.{
  IsSorted, thresholds, FindsRatio, load_all_commission_ratio-FindsRatio,
}

abbrev insert_ratio :
    ChannelCommissionRatio → List ChannelCommissionRatio → List ChannelCommissionRatio
insert_ratio x [] = x ∷ []
insert_ratio x (y ∷ ys) =
    let rest = insert_ratio x ys in if ltb_ℤ y.tx_count x.tx_count then y ∷ rest else x ∷ y ∷ ys

abbrev insertion_sort : List ChannelCommissionRatio → List ChannelCommissionRatio
insertion_sort [] = []
insertion_sort (x ∷ xs) = insert_ratio x (insertion_sort xs)

insert_ratio-In :
    (x : ChannelCommissionRatio) (ys : List ChannelCommissionRatio) (z : ChannelCommissionRatio)
    → In z (insert_ratio x ys) ↔ In z (x ∷ ys)
insert_ratio-In x [] z = (λ i. i, λ i. i)
insert_ratio-In x (y ∷ ys) z = elim (Bool-cases (ltb_ℤ y.tx_count x.tx_count)) [
  | inl below ↦
      let (out, back) = insert_ratio-In x ys z in
      rw below (
        λ i. elim i [
          | inl e ↦ inr (inl e)
          | inr j ↦ elim (out j) [ inl e ↦ inl e | inr later ↦ inr (inr later) ]
        ],
        λ i. elim i [
          | inl e ↦ inr (back (inl e))
          | inr j ↦ elim j [ inl e ↦ inl e | inr later ↦ inr (back (inr later)) ]
        ],
      )
  | inr first ↦ rw first (λ i. i, λ i. i)
]

insertion_sort-In :
    (xs : List ChannelCommissionRatio) (z : ChannelCommissionRatio)
    → In z (insertion_sort xs) ↔ In z xs
insertion_sort-In [] z = (λ i. i, λ i. i)
insertion_sort-In (x ∷ xs) z =
    let (out, back) = insertion_sort-In xs z in
    let (out', back') = insert_ratio-In x (insertion_sort xs) z in
    (
      λ i. elim (out' i) [ inl e ↦ inl e | inr j ↦ inr (out j) ],
      λ i. back' (elim i [ inl e ↦ inl e | inr j ↦ inr (back j) ]),
    )

All-insert_ratio :
    (a : ℤ) (x : ChannelCommissionRatio) (ys : List ChannelCommissionRatio)
    → a ≤ℤ x.tx_count
    → All (λ y. a ≤ℤ y.tx_count) ys
    → All (λ y. a ≤ℤ y.tx_count) (insert_ratio x ys)
All-insert_ratio a x [] h hs = (h, tt)
All-insert_ratio a x (y ∷ ys) h hs = elim (Bool-cases (ltb_ℤ y.tx_count x.tx_count)) [
  | inl below ↦ rw below (hs.0, All-insert_ratio a x ys h hs.1)
  | inr first ↦ rw first (h, hs)
]

All-trans :
    (a b : ℤ) (ys : List ChannelCommissionRatio)
    → a ≤ℤ b
    → All (λ y. b ≤ℤ y.tx_count) ys
    → All (λ y. a ≤ℤ y.tx_count) ys
All-trans a b [] h hs = tt
All-trans a b (y ∷ ys) h hs =
    let low : b ≤ℤ y.tx_count = hs.0 in (omega arith, All-trans a b ys h hs.1)

insert_ratio-IsSorted :
    (x : ChannelCommissionRatio) (ys : List ChannelCommissionRatio)
    → IsSorted ys
    → IsSorted (insert_ratio x ys)
insert_ratio-IsSorted x [] s = (tt, tt)
insert_ratio-IsSorted x (y ∷ ys) s = elim (Bool-cases (ltb_ℤ y.tx_count x.tx_count)) [
  | inl below ↦
      let low = ltb_ℤ→lt y.tx_count x.tx_count below in
      rw below (All-insert_ratio y.tx_count x ys (omega arith) s.0, insert_ratio-IsSorted x ys s.1)
  | inr first ↦
      let low : x.tx_count ≤ℤ y.tx_count = ltb_ℤ-false y.tx_count x.tx_count first in
      rw first ((low, All-trans x.tx_count y.tx_count ys low s.0), s)
]

insertion_sort-IsSorted : (xs : List ChannelCommissionRatio) → IsSorted (insertion_sort xs)
insertion_sort-IsSorted [] = tt
insertion_sort-IsSorted (x ∷ xs) =
    insert_ratio-IsSorted x (insertion_sort xs) (insertion_sort-IsSorted xs)

abbrev row_of : ℤ → ℤ → ℤ → CommissionRow
row_of channel_id tx_count ratio = record {
  channel_id = channel_id;
  tx_count = tx_count;
  ratio = ratio;
}

abbrev rows : Rows CommissionRow
rows = record {
  scans =
      some (row_of (pos 1) (pos 20) (pos 5)) ∷ none ∷ some (row_of (pos 1) (pos 10) (pos 3)) ∷ [];
  rows_err = false;
}

load_all_commission_ratio-FindsRatio_example :
    FindsRatio insertion_sort insertion_sort-In insertion_sort-IsSorted
      (pos 1)
      (pos 12)
      (load_all_commission_ratio insertion_sort (some rows) new_channel_commission_ratio_manager)
      (thresholds (pos 1) (used_rows good rows.scans))
load_all_commission_ratio-FindsRatio_example =
    load_all_commission_ratio-FindsRatio insertion_sort insertion_sort-In insertion_sort-IsSorted
      (pos 1) (pos 12) rows new_channel_commission_ratio_manager refl
