-- ===== src/Loader/Rows.antt =====
-- What the managers of loader/ share: the rows of a query (database/sql), the float64 operations
-- that they use, util.FromUiString (util/common.go), and the form in which they look texts up.
-- The locks only order whole calls, so a call is one step on the manager's state.
use mathlib.Core.List.{foldl}
use utils_go.Base.{◌≡◌, ◌⊎◌, inl, inr, refl, Option, none, some, Bool, List, [], ◌∷◌, ◌++◌}
use utils_go.Base.Int.{ℤ}
use utils_go.Base.Text.{Text, trim_space, to_lower}

-- strings.ToLower(strings.TrimSpace(s))
unfoldable pub key : Text → Text
key s = to_lower (trim_space s)

-- float64 with strconv.ParseFloat(s, 64); nothing is assumed of them.
pub record Float : Type 1 where
  pub F : Type 0
  pub parse_float : Text → Option F
  pub zero_float : F
  pub add : F → F → F
  pub greater : F → F → Bool

-- Decimal of github.com/shopspring/decimal: NewFromString, Shift and BigInt.
pub record Decimal : Type 1 where
  pub D : Type 0
  pub from_string : Text → Option D
  pub shift : D → ℤ → D
  pub big_int : D → ℤ

-- util.FromUiString
unfoldable pub from_ui_string : Decimal → Text → ℤ → Option ℤ
from_ui_string dec amount decimals = elim (dec.from_string amount) [
  | none ↦ none
  | some v ↦ some (dec.big_int (dec.shift v decimals))
]

-- What rows.Next and rows.Scan deliver: a row, or `none` where Scan fails; then what rows.Err says.
pub record Rows (R : Type 0) : Type 0 where
  pub scans : List (Option R)
  pub rows_err : Bool

-- A row that is used, or the alert with which it is skipped.
pub data Checked (A : Type 0) : Type 0 where
  good : A → Checked A
  skip : Text → Checked A

infixl 5 ◌>>=◌
abbrev pub ◌>>=◌ : {A B : Type 0} → Checked A → (A → Checked B) → Checked B
good a >>= f = f a
skip msg >>= f = skip msg

-- v, err := strconv.ParseFloat(s, 64); if err != nil { AlertText(msg, err); continue }
abbrev pub check_float : (fl : Float) → Text → Text → Checked fl.F
check_float fl s msg = elim (fl.parse_float s) [ none ↦ skip msg | some v ↦ good v ]

-- The rows that are used, as `build` makes them, in order.
unfoldable pub used_rows : {R A : Type 0} → (R → Checked A) → List (Option R) → List A
used_rows build [] = []
used_rows build (none ∷ rs) = used_rows build rs
used_rows build (some r ∷ rs) =
    let rest = used_rows build rs in elim (build r) [ good a ↦ a ∷ rest | skip _ ↦ rest ]

pub Checked-cases :
    {A : Type 0} (c : Checked A) → ((a : A) × (c ≡ good a)) ⊎ ((msg : Text) × (c ≡ skip msg))
Checked-cases (good a) = inl (a, refl)
Checked-cases (skip msg) = inr (msg, refl)

-- The loop over the rows: what is stored so far and the alerts so far.
module _ {R A S : Type 0} (build : R → Checked A) (put : A → S → S) (scan_error : Text) where
  unfoldable pub load_loop : List (Option R) → S → List Text → S × List Text
  load_loop [] s alerts = (s, alerts)
  load_loop (none ∷ rs) s alerts = load_loop rs s (alerts ++ scan_error ∷ [])
  load_loop (some row ∷ rs) s alerts = elim (build row) [
    | good a ↦ load_loop rs (put a s) alerts
    | skip msg ↦ load_loop rs s (alerts ++ msg ∷ [])
  ]

  -- The loop stores the rows that are used, in order.
  pub load_loop-eq-foldl :
      (rs : List (Option R)) (s : S) (alerts : List Text)
      → (load_loop rs s alerts).0 ≡ foldl (λ t a. put a t) s (used_rows build rs)
  unfolding load_loop used_rows
  load_loop-eq-foldl [] s alerts = refl
  load_loop-eq-foldl (none ∷ rs) s alerts = load_loop-eq-foldl rs s _
  load_loop-eq-foldl (some row ∷ rs) s alerts = elim (Checked-cases (build row)) [
    | inl (a, built) ↦ rw (built, load_loop, used_rows) (load_loop-eq-foldl rs (put a s) alerts)
    | inr (msg, skipped) ↦ rw (skipped, load_loop, used_rows) (load_loop-eq-foldl rs s _)
  ]
