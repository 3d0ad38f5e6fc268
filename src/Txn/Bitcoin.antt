-- ===== src/Txn/Bitcoin.antt =====
-- txn/btc/common.go and brc20.go: the fields of the JSON bodies, in the order of their keys. encoding/json
-- and big.Int's Int64 are parameters.
use utils_go.Base.{List, [], ◌∷◌}
use utils_go.Base.Int.{ℤ}
use utils_go.Base.Text.{Text, text, trim_space}
use utils_go.Util.Token.{Answer}

-- The value of a field.
pub data Field : Type 0 where
  of_text : Text → Field
  of_int64 : ℤ → Field

module _ (marshal : List (Text × Field) → Answer Text) (int64 : ℤ → ℤ) where
  unfoldable pub transfer_body : Text → ℤ → Answer Text
  unfolding trim_space
  transfer_body receiver_addr amount = marshal (
      (text "amount", of_int64 (int64 amount))
      ∷ (text "receiver", of_text (trim_space receiver_addr))
      ∷ [])

  unfoldable pub brc20_transfer_body : Text → Text → ℤ → Answer Text
  unfolding trim_space
  brc20_transfer_body receiver_addr token_name amount = marshal (
      (text "amount", of_int64 (int64 amount))
      ∷ (text "method", of_text (text "transfer"))
      ∷ (text "receiver", of_text (trim_space receiver_addr))
      ∷ (text "token", of_text token_name)
      ∷ [])
