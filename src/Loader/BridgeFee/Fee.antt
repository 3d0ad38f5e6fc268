-- ===== src/Loader/BridgeFee/Fee.antt =====
-- loader/bridge_fee.go: how the fee of an amount is rounded, and what GetBridgeFeeDetail returns.
use native.Mathlib.Nat.{mod-lt, mod-le, mul-le-mul_left, mul-mod_right, div-add-mod}
use utils_go.Base.{
  Bool-cases, inl, inr, ◌⊎◌, ℕ, zero, suc, ◌+◌, ◌-◌, ◌*◌, ◌/◌, ◌%◌, ◌≤◌, ◌<◌, ◌≡◌, refl, ap, ◌∙◌,
  some, true, arith, ltb,
}
use utils_go.Base.Int.{
  ℤ, pos, ◌-ℤ◌, div_ℤ, mod_ℤ, wrap_i32, exp_10, exp_10-pos, pos_mul, pos_sub, ltb_ℤ, ltb_ℤ→lt,
  ltb_ℤ-false, ◌≤ℤ◌,
}
use utils_go.Base.Text.{Text}
use utils_go.Loader.Rows.{Decimal}
use utils_go.Loader.BridgeFee.{
  BridgeFee, BridgeFeeManager, get_bridge_fee, fee_from_ui_string, kept_decimal,
  get_included_bridge_fee_big_int, get_bridge_fee_detail,
}

-- The quotient cut to a multiple of `s`.
abbrev cut : ℕ → ℕ → ℕ
cut q s = q - q % s

cut_multiple : (q s : ℕ) → cut q s % s ≡ 0
cut_multiple q s =
    let e : cut q s ≡ s * (q / s) = omega (arith, div-add-mod q s) in rw e (mul-mod_right s (q / s))

cut_close : (q s : ℕ) → 1 ≤ s → (cut q s ≤ q) × (q < cut q s + s)
cut_close q s h = let small : q % s < s = mod-lt q h in (omega arith, omega arith)

-- The fee of `n` smallest units at the ratio `r`.
abbrev pub rounded_fee : ℕ → ℕ → ℕ → ℕ
rounded_fee n r s = cut (n * r / 100000000) s

fee_from_ui_string-natural :
    (n r : ℕ) (decimal keep : ℤ)
    → 0 < r
    → fee_from_ui_string (pos n) (pos r) decimal keep
      ≡ pos n -ℤ pos (rounded_fee n r (exp_10 (wrap_i32 (decimal -ℤ keep))))
unfolding fee_from_ui_string div_ℤ mod_ℤ
fee_from_ui_string-natural n r decimal keep h =
    let test : ltb 0 (r + 0) ≡ true = ground arith in
    let q = n * r / 100000000 in
    let s = exp_10 (wrap_i32 (decimal -ℤ keep)) in
    rw (test, pos_mul n r, pos_sub q (q % s) (mod-le q s)) refl

charged :
    (n r : ℕ) (decimal keep : ℤ)
    → rounded_fee n r (exp_10 (wrap_i32 (decimal -ℤ keep))) ≤ n
    → pos n -ℤ fee_from_ui_string (pos n) (pos r) decimal keep
      ≡ pos (rounded_fee n r (exp_10 (wrap_i32 (decimal -ℤ keep))))
charged n zero decimal keep h =
    let s = exp_10 (wrap_i32 (decimal -ℤ keep)) in
    let none_due : rounded_fee n 0 s ≡ 0 = omega arith in
    let all_left : fee_from_ui_string (pos n) (pos 0) decimal keep ≡ pos n =
      unfold fee_from_ui_string in refl in
    rw (all_left, none_due) (pos_sub n n (omega arith) ∙ ap pos (omega arith))
charged n (suc r) decimal keep h =
    let f = rounded_fee n (suc r) (exp_10 (wrap_i32 (decimal -ℤ keep))) in
    rw (fee_from_ui_string-natural n (suc r) decimal keep (omega arith), pos_sub n f h)
      (pos_sub n (n - f) (omega arith) ∙ ap pos (omega arith))

-- The lower of the decimals that the lane keeps and those of the amount.
abbrev pub IsKept : {F : Type 0} → BridgeFee F → ℤ → ℤ → Type 0
IsKept fee decimal keep =
    (keep ≤ℤ fee.keep_decimal) × (keep ≤ℤ decimal) × ((keep ≡ fee.keep_decimal) ⊎ (keep ≡ decimal))

kept_decimal-IsKept :
    {F : Type 0} (fee : BridgeFee F) (decimal : ℤ) → IsKept fee decimal (kept_decimal fee decimal)
kept_decimal-IsKept fee decimal = elim (Bool-cases (ltb_ℤ fee.keep_decimal decimal)) [
  | inl lower ↦
      rw lower (omega arith, omega (arith, ltb_ℤ→lt fee.keep_decimal decimal lower), inl refl)
  | inr higher ↦ rw higher (ltb_ℤ-false fee.keep_decimal decimal higher, omega arith, inr refl)
]

-- What GetBridgeFeeDetail returns for an amount of `n` smallest units on a lane whose ratio for the
-- amount is a natural number `r` of at most 10^8: the ratio, and a fee that is at most the amount, that
-- is a multiple of the unit 10^(decimal - keep), and that is the exact fee n * r / 10^8 cut to a
-- multiple of the unit. Here `keep` is the lower of the lane's KeepDecimal and decimal, and the
-- difference is taken in 32 bits, with a unit of 1 where it is negative.
pub get_bridge_fee_detail-rounds :
    {F : Type 0} (dec : Decimal) (mgr : BridgeFeeManager F) (token from to : Text)
    (fee : BridgeFee F) (n r : ℕ) (decimal : ℤ)
    → get_bridge_fee mgr token from to ≡ some fee
    → get_included_bridge_fee_big_int dec mgr token from to (pos n) decimal ≡ some (pos r)
    → r ≤ 100000000
    → (keep : ℤ) × IsKept fee decimal keep
      × ((f : ℕ) × (get_bridge_fee_detail dec mgr token from to (pos n) decimal ≡ (pos r, pos f))
          × (f ≤ n)
          × (f % exp_10 (wrap_i32 (decimal -ℤ keep)) ≡ 0)
          × (f * 100000000 ≤ n * r)
          × (n * r < (f + exp_10 (wrap_i32 (decimal -ℤ keep))) * 100000000))
unfolding get_bridge_fee_detail
get_bridge_fee_detail-rounds dec mgr token from to fee n r decimal found ratio small =
    let keep = kept_decimal fee decimal in
    let s = exp_10 (wrap_i32 (decimal -ℤ keep)) in
    let one : 1 ≤ s = exp_10-pos (wrap_i32 (decimal -ℤ keep)) in
    let f = rounded_fee n r s in
    let (below, close) = cut_close (n * r / 100000000) s one in
    let le_n : n * r ≤ n * 100000000 = mul-le-mul_left n small in
    let f-le-n : f ≤ n = omega arith in
    (
      keep,
      kept_decimal-IsKept fee decimal,
      (
        f,
        rw (found, get_bridge_fee_detail, ratio)
            (ap (λ x. (pos r, x)) (charged n r decimal keep f-le-n)),
        f-le-n,
        cut_multiple (n * r / 100000000) s,
        omega arith,
        omega arith,
      ),
    )
