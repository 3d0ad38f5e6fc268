-- ===== src/Loader/Aggregator/Fees.antt =====
-- loader/aggregator_route.go: the fee segment of an amount, and how the fees grow with the amount.
use native.Mathlib.Nat.{
  mul-le-mul_right, mul_right_comm, le-div_iff_mul-le, le_of_mul-le-mul_right, div-mul-le_self,
  le_trans,
}
use utils_go.Base.{ℕ, ◌*◌, ◌/◌, ◌≤◌, ◌≡◌, refl, arith}
use utils_go.Base.Int.{ℤ, pos, negsuc, ◌+ℤ◌, div_ℤ, ◌≤ℤ◌, exp_10, pos_mul, +ℤ_parts}
use utils_go.Loader.Aggregator.{
  FeeSegment, Rat, RatText, to_wei, bps_of, fixed_fee_ui, calculate_fee,
}

-- a/b ≤ c/d gives floor(a/b) ≤ floor(c/d).
div_mono_frac : (a b c d : ℕ) → 1 ≤ b → 1 ≤ d → a * d ≤ c * b → a / b ≤ c / d
div_mono_frac a b c d hb hd h =
    let x = a / b in
    let lower : x * b ≤ a = div-mul-le_self a b in
    let scaled : x * b * d ≤ a * d = mul-le-mul_right d lower in
    (le-div_iff_mul-le hd).1
      (le_of_mul-le-mul_right (rw (mul_right_comm x d b) (le_trans scaled h)) hb)

bps_of-mono : (w w' : ℕ) (bps : ℤ) → w ≤ w' → bps_of (pos w) bps ≤ℤ bps_of (pos w') bps
unfolding bps_of div_ℤ
bps_of-mono w w' (negsuc b) h = ground arith
bps_of-mono w w' (pos b) h =
    let more : w * b ≤ w' * b = mul-le-mul_right b h in
    rw (pos_mul w b, pos_mul w' b) (ground arith)

-- A natural amount in the smallest unit.
to_wei-natural :
    (amt : Rat) (n : ℕ) (decimals : ℤ)
    → amt.num ≡ pos n
    → to_wei amt decimals ≡ pos (n * exp_10 decimals / amt.den)
unfolding to_wei div_ℤ
to_wei-natural amt n decimals e = rw (e, pos_mul n (exp_10 decimals)) refl

+ℤ-mono : (a b c d : ℤ) → a ≤ℤ b → c ≤ℤ d → a +ℤ c ≤ℤ b +ℤ d
+ℤ-mono a b c d h k = omega (arith, +ℤ_parts)

-- The amounts in the smallest unit keep the order of the amounts.
to_wei_mono :
    (amt amt' : Rat) (n n' : ℕ) (decimals : ℤ)
    → n * amt'.den ≤ n' * amt.den
    → n * exp_10 decimals / amt.den ≤ n' * exp_10 decimals / amt'.den
to_wei_mono amt amt' n n' decimals h =
    let scale = exp_10 decimals in
    let scaled : n * amt'.den * scale ≤ n' * amt.den * scale = mul-le-mul_right scale h in
    let crossed : n * scale * amt'.den ≤ n' * scale * amt.den =
      rw (mul_right_comm n scale amt'.den, mul_right_comm n' scale amt.den) scaled in
    div_mono_frac (n * scale) amt.den (n' * scale) amt'.den amt.den_pos amt'.den_pos crossed

refl-≤ℤ : (a : ℤ) → a ≤ℤ a
refl-≤ℤ a = omega arith

-- On one fee segment, of two amounts that are not negative the larger one never has a lower total fee
-- and never a lower protocol fee.
pub calculate_fee-mono :
    (rt : RatText) (seg : FeeSegment) (decimals : ℤ) (amt amt' : Rat) (n n' : ℕ)
    → amt.num ≡ pos n
    → amt'.num ≡ pos n'
    → n * amt'.den ≤ n' * amt.den
    → ((calculate_fee rt amt seg decimals).total_gas_fee
        ≤ℤ (calculate_fee rt amt' seg decimals).total_gas_fee)
      × ((calculate_fee rt amt seg decimals).protocol_fee
          ≤ℤ (calculate_fee rt amt' seg decimals).protocol_fee)
unfolding calculate_fee
calculate_fee-mono rt seg decimals amt amt' n n' e e' h =
    let w = n * exp_10 decimals / amt.den in
    let w' = n' * exp_10 decimals / amt'.den in
    let more : w ≤ w' = to_wei_mono amt amt' n n' decimals h in
    let fixed = to_wei (fixed_fee_ui rt seg) decimals in
    let rate = seg.owlto_fee_rate_bps in
    rw (to_wei-natural amt n decimals e, to_wei-natural amt' n' decimals e')
      (
        +ℤ-mono fixed fixed (fixed +ℤ bps_of (pos w) rate) (fixed +ℤ bps_of (pos w') rate)
            (refl-≤ℤ fixed)
            (+ℤ-mono fixed fixed (bps_of (pos w) rate) (bps_of (pos w') rate) (refl-≤ℤ fixed)
              (bps_of-mono w w' rate more)),
        bps_of-mono w w' seg.protocol_fee_rate_bps more,
      )
