-- ===== src/Rpc/Starknet.antt =====
-- rpc/starknet.go, rpc/fuel.go and rpc/ton.go: StarknetRpc, FuelRpc and TonRpc. The SDKs and what the nodes answer are
-- parameters; the clients of Starknet and Fuel are there. The methods that return "not impl" are left out.
use utils_go.Base.{ℕ, Bool, Option, none, some, List, [], ◌∷◌, ◌++◌, map}
use utils_go.Base.Int.{ℤ, pos}
use utils_go.Base.Text.{Text, text, trim_space}
use utils_go.Rpc.TokenCache.{int64_of}
use utils_go.Util.Address.{get_checksum_address_64}
use utils_go.Util.Call.{Call, returned, failed, panicked}
use utils_go.Util.Token.{Answer, answer, refused, ◌>>=◌}

-- The finality of a receipt: accepted on L2 or L1, or another status with its text.
pub data Finality : Type 0 where
  accepted : Finality
  other_finality : Text → Finality

pub record Receipt : Type 0 where
  pub finality_status : Finality
  -- ExecutionStatus is TxnExecutionStatusSUCCEEDED
  pub succeeded : Bool
  pub block_number : ℕ

pub record StarknetNode : Type 1 where
  pub Felt : Type 0
  pub hex_to_felt : Text → Answer Felt
  pub felt_big_int : Felt → ℤ
  -- Call of balanceOf of a token, with the owner, at the latest block
  pub call_balance_of : Felt → Felt → Answer (List Felt)
  -- hexutil.Decode, with SetBytes of a Felt
  pub decode_hash : Text → Answer Felt
  pub transaction_receipt : Felt → Answer (Option Receipt)
  pub latest_block : Answer ℕ
  -- StarknetKeccak and the text of its hash
  pub starknet_keccak : List ℕ → Text

-- caddr, _ := ...; the text beside an error is empty.
unfoldable pub dropping_error : Call Text → Call Text
dropping_error (returned s) = returned s
dropping_error (failed msg) = returned []
dropping_error panicked = panicked

-- if len(rsp) > 0
unfoldable pub first_or_zero : List ℤ → ℤ
first_or_zero [] = pos 0
first_or_zero (z ∷ zs) = z

-- the switch over the status
unfoldable pub finality : Receipt → Finality → Answer (Bool × ℤ)
unfolding int64_of
finality receipt accepted = answer (receipt.succeeded, int64_of receipt.block_number)
finality receipt (other_finality status) = refused (text "unknown tx status: " ++ status)

unfoldable pub receipt_status : Option Receipt → Answer (Bool × ℤ)
unfolding finality
receipt_status none = refused (text "get status failed")
receipt_status (some receipt) = finality receipt receipt.finality_status

module _ (node : StarknetNode) where
  unfoldable pub get_checksum_address : Text → Call Text
  unfolding dropping_error get_checksum_address_64
  get_checksum_address addr = dropping_error (get_checksum_address_64 node.starknet_keccak addr)

  unfoldable pub get_balance : Text → Text → Answer ℤ
  unfolding first_or_zero trim_space
  get_balance owner_addr token_addr = do
    token ← node.hex_to_felt (trim_space token_addr)
    owner ← node.hex_to_felt (trim_space owner_addr)
    rsp ← node.call_balance_of token owner
    answer (first_or_zero (map node.felt_big_int rsp))

  unfoldable pub is_tx_success : Text → Answer (Bool × ℤ)
  unfolding receipt_status
  is_tx_success hash = do
    bhash ← node.decode_hash hash
    receipt ← node.transaction_receipt bhash
    receipt_status receipt

  unfoldable pub get_latest_block_number : Answer ℤ
  unfolding int64_of
  get_latest_block_number = do block_number ← node.latest_block; answer (int64_of block_number)
