-- ===== src/Loader/Dtc/Tiers.antt =====
-- loader/dtc.go: the tiers of the big.Int methods.
use mathlib.Core.Path.{subst}
use utils_go.Base.{
  ◌≡◌, refl, sym, ◌∙◌, ap, some, true, false, List, [], ◌∷◌, if◌then◌else◌, arith, Bool-cases, inl,
  inr, Option-cases, eq_of_some, In,
}
use utils_go.Base.Int.{ℤ, pos, ◌+ℤ◌, leb_ℤ, ◌≤ℤ◌, +ℤ_parts, int_laws, leb_ℤ→le}
use utils_go.Base.Text.{Text, text_beq, text_eq}
use utils_go.Loader.Rows.{Decimal}
use utils_go.Loader.Dtc.{
  Dtc, DtcManager, get_dtc, ui_part, mgr_from_ui_string, get_included_dtc_big_int,
  get_dtc_to_include_big_int, first_covering, get_min_value_include_gas_fee,
}

-- The tests of both methods over plain integers.
abbrev pick : ℤ → ℤ → ℤ → ℤ → ℤ → ℤ → ℤ → ℤ → ℤ
pick v t1 t2 t3 d1 d2 d3 d4 =
    if leb_ℤ v t1 then d1 else if leb_ℤ v t2 then d2 else if leb_ℤ v t3 then d3 else d4

leb_ℤ-shift : (v a d : ℤ) → leb_ℤ (v +ℤ d) (a +ℤ d) ≡ leb_ℤ v a
leb_ℤ-shift v a d = ground (arith, +ℤ_parts v d, +ℤ_parts a d)

leb_ℤ-above : (v a d d' : ℤ) → leb_ℤ v a ≡ false → d ≤ℤ d' → leb_ℤ (v +ℤ d') (a +ℤ d) ≡ false
leb_ℤ-above v a d d' h k = ground (arith, +ℤ_parts v d', +ℤ_parts a d)

≤ℤ_trans : (a b c : ℤ) → a ≤ℤ b → b ≤ℤ c → a ≤ℤ c
≤ℤ_trans a b c h k = omega arith

module _ (v a1 a2 a3 d1 d2 d3 d4 : ℤ) (h12 : d1 ≤ℤ d2) (h23 : d2 ≤ℤ d3) (h34 : d3 ≤ℤ d4) where
  pick_included :
      pick (v +ℤ pick v a1 a2 a3 d1 d2 d3 d4) (a1 +ℤ d1) (a2 +ℤ d2) (a3 +ℤ d3) d1 d2 d3 d4
      ≡ pick v a1 a2 a3 d1 d2 d3 d4
  pick_included = elim (Bool-cases (leb_ℤ v a1)) [
    | inl in1 ↦ rw (in1, leb_ℤ-shift v a1 d1, in1) refl
    | inr out1 ↦ elim (Bool-cases (leb_ℤ v a2)) [
      | inl in2 ↦ rw (out1, in2, leb_ℤ-above v a1 d1 d2 out1 h12, leb_ℤ-shift v a2 d2, in2) refl
      | inr out2 ↦
          let skip1 : (d : ℤ) → d1 ≤ℤ d → leb_ℤ (v +ℤ d) (a1 +ℤ d1) ≡ false =
            λ d k. leb_ℤ-above v a1 d1 d out1 k in
          let skip2 : (d : ℤ) → d2 ≤ℤ d → leb_ℤ (v +ℤ d) (a2 +ℤ d2) ≡ false =
            λ d k. leb_ℤ-above v a2 d2 d out2 k in
          elim (Bool-cases (leb_ℤ v a3)) [
            | inl in3 ↦
                rw
                  (
                    out1,
                    out2,
                    in3,
                    skip1 d3 (≤ℤ_trans d1 d2 d3 h12 h23),
                    skip2 d3 h23,
                    leb_ℤ-shift v a3 d3,
                    in3,
                  )
                  refl
            | inr out3 ↦
                rw
                  (
                    out1,
                    out2,
                    out3,
                    skip1 d4 (≤ℤ_trans d1 d3 d4 (≤ℤ_trans d1 d2 d3 h12 h23) h34),
                    skip2 d4 (≤ℤ_trans d2 d3 d4 h23 h34),
                    leb_ℤ-above v a3 d3 d4 out3 h34,
                  )
                  refl
          ]
    ]
  ]

+ℤ_unit : (x y : ℤ) → pos 0 +ℤ x +ℤ y ≡ pos 0 +ℤ x +ℤ pos 0 +ℤ (pos 0 +ℤ pos 0 +ℤ y)
+ℤ_unit x y = omega int_laws

some-pick :
    (v t1 t2 t3 d1 d2 d3 d4 : ℤ)
    → (if leb_ℤ v t1
        then some d1
        else if leb_ℤ v t2
        then some d2
        else if leb_ℤ v t3
        then some d3
        else some d4)
      ≡ some (pick v t1 t2 t3 d1 d2 d3 d4)
some-pick v t1 t2 t3 d1 d2 d3 d4 = ground arith

module _ (dec : Decimal) where
  mgr_from_ui_string-sum :
      (a d : Text) (k : ℤ)
      → mgr_from_ui_string dec a d k
        ≡ mgr_from_ui_string dec a [] k +ℤ mgr_from_ui_string dec [] d k
  unfolding mgr_from_ui_string text_beq ◌+ℤ◌
  mgr_from_ui_string-sum a d k = +ℤ_unit (ui_part dec a k) (ui_part dec d k)

-- The fees of a lane do not fall from tier to tier.
abbrev pub FeesRise : {F : Type 0} → Decimal → ℤ → Dtc F → Type 0
FeesRise dec k dtc =
    (fee dtc.dtc_lv1_str ≤ℤ fee dtc.dtc_lv2_str)
    × (fee dtc.dtc_lv2_str ≤ℤ fee dtc.dtc_lv3_str)
    × (fee dtc.dtc_lv3_str ≤ℤ fee dtc.dtc_lv4_str)
  where
    fee : Text → ℤ
    fee s = mgr_from_ui_string dec [] s k

module _ {F : Type 0} (dec : Decimal) (mgr : DtcManager F) (token from to : Text) (k : ℤ) where
  abbrev fee_of : Text → ℤ
  fee_of s = mgr_from_ui_string dec [] s k

  abbrev amount_of : Text → ℤ
  amount_of s = mgr_from_ui_string dec s [] k

  to_include-eq-pick :
      (dtc : Dtc F) (v : ℤ)
      → get_dtc mgr token from to ≡ some dtc
      → get_dtc_to_include_big_int dec mgr token from to v k
        ≡ some (
            pick v
              (amount_of dtc.amount_lv1_str)
              (amount_of dtc.amount_lv2_str)
              (amount_of dtc.amount_lv3_str)
              (fee_of dtc.dtc_lv1_str)
              (fee_of dtc.dtc_lv2_str)
              (fee_of dtc.dtc_lv3_str)
              (fee_of dtc.dtc_lv4_str))
  unfolding get_dtc_to_include_big_int
  to_include-eq-pick dtc v found =
      rw (found, get_dtc_to_include_big_int) (some-pick v _ _ _ _ _ _ _)

  included-eq-pick :
      (dtc : Dtc F) (v : ℤ)
      → get_dtc mgr token from to ≡ some dtc
      → get_included_dtc_big_int dec mgr token from to v k
        ≡ some (
            pick v
              (amount_of dtc.amount_lv1_str +ℤ fee_of dtc.dtc_lv1_str)
              (amount_of dtc.amount_lv2_str +ℤ fee_of dtc.dtc_lv2_str)
              (amount_of dtc.amount_lv3_str +ℤ fee_of dtc.dtc_lv3_str)
              (fee_of dtc.dtc_lv1_str)
              (fee_of dtc.dtc_lv2_str)
              (fee_of dtc.dtc_lv3_str)
              (fee_of dtc.dtc_lv4_str))
  unfolding get_included_dtc_big_int
  included-eq-pick dtc v found =
      rw
        (
          found,
          get_included_dtc_big_int,
          mgr_from_ui_string-sum dec dtc.amount_lv1_str dtc.dtc_lv1_str k,
          mgr_from_ui_string-sum dec dtc.amount_lv2_str dtc.dtc_lv2_str k,
          mgr_from_ui_string-sum dec dtc.amount_lv3_str dtc.dtc_lv3_str k,
        )
        (some-pick v _ _ _ _ _ _ _)

  -- For a lane whose fees do not fall from tier to tier, adding the fee of an amount and then asking
  -- which fee the sum includes gives that fee.
  pub included-to_include :
      (dtc : Dtc F) (v d : ℤ)
      → get_dtc mgr token from to ≡ some dtc
      → FeesRise dec k dtc
      → get_dtc_to_include_big_int dec mgr token from to v k ≡ some d
      → get_included_dtc_big_int dec mgr token from to (v +ℤ d) k ≡ some d
  included-to_include dtc v d found rise h =
      let picked = to_include-eq-pick dtc v found in
      let at_sum = included-eq-pick dtc (v +ℤ d) found in
      let same =
        pick_included v (amount_of dtc.amount_lv1_str) (amount_of dtc.amount_lv2_str)
          (amount_of dtc.amount_lv3_str) (fee_of dtc.dtc_lv1_str) (fee_of dtc.dtc_lv2_str)
          (fee_of dtc.dtc_lv3_str) (fee_of dtc.dtc_lv4_str) rise.0 rise.1 rise.2 in
      let ed =
        eq_of_some
          (pick v (amount_of dtc.amount_lv1_str) (amount_of dtc.amount_lv2_str)
            (amount_of dtc.amount_lv3_str) (fee_of dtc.dtc_lv1_str) (fee_of dtc.dtc_lv2_str)
            (fee_of dtc.dtc_lv3_str) (fee_of dtc.dtc_lv4_str))
          d (sym picked ∙ h) in
      at_sum
      ∙ ap some (
          subst
            (λ p.
              pick (v +ℤ p) (amount_of dtc.amount_lv1_str +ℤ fee_of dtc.dtc_lv1_str)
                (amount_of dtc.amount_lv2_str +ℤ fee_of dtc.dtc_lv2_str)
                (amount_of dtc.amount_lv3_str +ℤ fee_of dtc.dtc_lv3_str) (fee_of dtc.dtc_lv1_str)
                (fee_of dtc.dtc_lv2_str) (fee_of dtc.dtc_lv3_str) (fee_of dtc.dtc_lv4_str)
              ≡ p)
            ed same)

  -- The value pays for the fee that it includes.
  abbrev pub Covers : Text → Type 0
  Covers val =
      (fee : ℤ) × (get_included_dtc_big_int dec mgr token from to (mgr_from_ui_string dec [] val k)
          k
        ≡ some fee)
      × (fee ≤ℤ mgr_from_ui_string dec [] val k)

  first_covering_sound :
      (vals : List Text) (val : Text)
      → first_covering dec mgr token from to k vals ≡ some val
      → Covers val × In val vals
  unfolding first_covering
  first_covering_sound [] val h = cc
  first_covering_sound (x ∷ vals) val h =
      elim (Option-cases (get_included_dtc_big_int dec mgr token from to (fee_of x) k)) [
        | inl no_lane ↦
            let (covers, later) = first_covering_sound vals val (ground arith) in
            (covers, inr later)
        | inr (fee, included) ↦ elim (Bool-cases (leb_ℤ fee (fee_of x))) [
          | inl pays ↦
              let same : x ≡ val = ground arith in
              (rw (← same) (fee, included, leb_ℤ→le fee (fee_of x) pays), inl same)
          | inr short ↦
              let (covers, later) = first_covering_sound vals val (ground arith) in
              (covers, inr later)
        ]
      ]

  abbrev pub tiers : Dtc F → List Text
  tiers dtc = dtc.dtc_lv1_str ∷ dtc.dtc_lv2_str ∷ dtc.dtc_lv3_str ∷ dtc.dtc_lv4_str ∷ []

  -- A value that GetMinValueIncludeGasFee returns for a lane is a fee of the lane that covers the fee
  -- which it includes.
  pub get_min_value-Covers :
      (dtc : Dtc F) (val : Text)
      → get_dtc mgr token from to ≡ some dtc
      → get_min_value_include_gas_fee dec mgr token from to k ≡ some val
      → Covers val × In val (tiers dtc)
  unfolding get_min_value_include_gas_fee
  get_min_value-Covers dtc val found h =
      first_covering_sound (tiers dtc) val (rw (found, get_min_value_include_gas_fee) at h)

  -- Where the first amount of the lane is not negative, GetMinValueIncludeGasFee returns the first
  -- fee of the lane, whatever the other tiers are.
  pub get_min_value-first :
      (dtc : Dtc F)
      → get_dtc mgr token from to ≡ some dtc
      → pos 0 ≤ℤ mgr_from_ui_string dec dtc.amount_lv1_str [] k
      → get_min_value_include_gas_fee dec mgr token from to k ≡ some dtc.dtc_lv1_str
  unfolding get_min_value_include_gas_fee first_covering
  get_min_value-first dtc found natural =
      let a = amount_of dtc.amount_lv1_str in
      let f = fee_of dtc.dtc_lv1_str in
      let within : leb_ℤ f (a +ℤ f) ≡ true = ground (arith, +ℤ_parts a f) in
      let pays : leb_ℤ f f ≡ true = ground arith in
      rw
        (
          found,
          get_min_value_include_gas_fee,
          first_covering,
          included-eq-pick dtc f found,
          within,
          pays,
        )
        refl
