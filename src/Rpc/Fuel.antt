-- ===== src/Rpc/Fuel.antt =====
-- rpc/fuel.go: FuelRpc. The SDK, the GraphQL client and what the node answers are parameters; the client is
-- there. The methods that return "not implement" are left out.
use utils_go.Base.{ℕ, Bool, true, false, Option, none, some, List, ◌++◌}
use utils_go.Base.Int.{ℤ}
use utils_go.Base.Text.{Text, text}
use utils_go.Rpc.Starknet.{dropping_error}
use utils_go.Rpc.TokenCache.{int64_of}
use utils_go.Util.Address.{get_fuel_checksum_address}
use utils_go.Util.Call.{Call}
use utils_go.Util.Token.{Answer, answer, refused, ◌>>=◌}

-- SuccessStatus and FailureStatus, with the height of the block where they are set
pub record Status : Type 0 where
  pub success_status : Option ℕ
  pub failure_status : Option ℕ

pub record FuelNode : Type 0 where
  pub latest_height : Answer ℕ
  -- GetTransaction of a hash, with its status
  pub transaction : Text → Answer (Option Status)
  -- the Amount that the query of a balance returns, for an owner and an asset
  pub query_balance : Text → Text → Answer Text
  -- big.Int's SetString in base 10
  pub set_string : Text → Option ℤ
  pub sha256 : Text → List ℕ

unfoldable pub mined_status : Text → Option ℕ → Option ℕ → Answer (Bool × ℤ)
unfolding int64_of
mined_status hash (some height) failure = answer (true, int64_of height)
mined_status hash none (some height) = answer (false, int64_of height)
mined_status hash none none = refused (text "fuel tx: " ++ hash ++ text " is pending")

unfoldable pub transaction_status : Text → Option Status → Answer (Bool × ℤ)
unfolding mined_status
transaction_status hash none = refused (text "not found fuel tx: " ++ hash)
transaction_status hash (some status) =
    mined_status hash status.success_status status.failure_status

module _ (node : FuelNode) where
  unfoldable pub get_checksum_address : Text → Call Text
  unfolding dropping_error get_fuel_checksum_address
  get_checksum_address addr = dropping_error (get_fuel_checksum_address node.sha256 addr)

  unfoldable pub get_latest_block_number : Answer ℤ
  unfolding int64_of
  get_latest_block_number = do block_number ← node.latest_height; answer (int64_of block_number)

  unfoldable pub is_tx_success : Text → Answer (Bool × ℤ)
  unfolding transaction_status
  is_tx_success hash = do txn ← node.transaction hash; transaction_status hash txn

  unfoldable pub get_balance : Text → Text → Answer ℤ
  get_balance owner_addr token_addr = elim (node.query_balance owner_addr token_addr) [
    | refused msg ↦ refused (text "get balance err: " ++ msg)
    | answer amount ↦ elim (node.set_string amount) [
      | some n ↦ answer n
      | none ↦ refused (text "invalid amount format: " ++ amount)
    ]
  ]
