-- ===== src/Txn/Evm.antt =====
-- txn/evm/common.go and erc20.go: gas estimates and the JSON bodies of transactions. go-ethereum,
-- encoding/json and the hexadecimal texts of fmt and encoding/hex are parameters. A nil *big.Int or a nil
-- slice is `none`.
use utils_go.Base.{ℕ, ◌*◌, ◌/◌, ◌%◌, ◌^◌, Option, none, some, List, [], ◌∷◌, ◌++◌}
use utils_go.Base.Int.{ℤ, pos}
use utils_go.Base.Text.{Text, text, trim_space}
use utils_go.Util.Token.{Answer, answer, ◌>>=◌}

-- ethereum.CallMsg, the fields that are set
pub record CallMsg (Address : Type 0) : Type 0 where
  pub from : Address
  pub to : Address
  pub value : ℤ
  pub call_data : List ℕ

pub record Geth : Type 1 where
  pub Address : Type 0
  pub hex_to_address : Text → Address
  pub address_hex : Address → Text
  -- client.EstimateGas: the gas, which the code multiplies before it looks at the error
  pub estimate : CallMsg Address → Answer ℕ
  -- fmt.Sprintf("0x%x", n), and "0x" with hex.EncodeToString
  pub hex_number : ℤ → Text
  pub hex_bytes : List ℕ → Text
  -- the packed call of a method of the ABI of ERC-20 with an address and an amount, or the error of
  -- GetAbi or Pack
  pub pack : Text → Address → ℤ → Answer (List ℕ)
  pub marshal : List (Text × Text) → Answer Text

unfoldable pub value_or_zero : Option ℤ → ℤ
value_or_zero none = pos 0
value_or_zero (some v) = v

unfoldable pub bytes_or_empty : Option (List ℕ) → List ℕ
bytes_or_empty none = []
bytes_or_empty (some bytes) = bytes

-- gas * 3 / 2, on uint64
unfoldable pub raised : ℕ → ℕ
raised gas = gas * 3 % 2 ^ 64 / 2

module _ (geth : Geth) where
  -- The gas that the source returns beside an error is left out: the callers below drop it.
  unfoldable pub estimate_gas : Text → Text → Option ℤ → Option (List ℕ) → Answer ℕ
  unfolding trim_space value_or_zero bytes_or_empty raised
  estimate_gas from_addr to_addr value call_data = do
    gas ← geth.estimate (record {
      from = geth.hex_to_address (trim_space from_addr);
      to = geth.hex_to_address (trim_space to_addr);
      value = value_or_zero value;
      call_data = bytes_or_empty call_data;
    })
    answer (raised gas)

  unfoldable pub input_field : Option (List ℕ) → List (Text × Text)
  input_field none = []
  input_field (some input) = (text "input", geth.hex_bytes input) ∷ []

  -- The fields in the order of their keys, as encoding/json writes a map.
  unfoldable pub to_body : Text → Option ℤ → Option (List ℕ) → ℕ → Answer Text
  unfolding trim_space value_or_zero input_field
  to_body to_addr value input gas = geth.marshal (
      ((text "gas", geth.hex_number (pos gas)) ∷ [])
      ++ (input_field input
          ++ ((text "to", geth.address_hex (geth.hex_to_address (trim_space to_addr)))
              ∷ (text "value", geth.hex_number (value_or_zero value))
              ∷ [])))

  unfoldable pub transfer_body : Text → Text → Option ℤ → Answer Text
  unfolding trim_space estimate_gas to_body
  transfer_body sender_addr receiver_addr amount = do
    gas ← estimate_gas (trim_space sender_addr) (trim_space receiver_addr) amount none
    to_body (trim_space receiver_addr) amount none gas

  -- the two bodies of erc20.go, with the name of the method
  unfoldable pub erc20_body : Text → Text → Text → Text → ℤ → Answer Text
  unfolding trim_space estimate_gas to_body
  erc20_body method sender_addr token_addr other_addr amount = do
    packed ← geth.pack method (geth.hex_to_address (trim_space other_addr)) amount
    gas ← estimate_gas (trim_space sender_addr) (trim_space token_addr) none (some packed)
    to_body (trim_space token_addr) none (some packed) gas

  unfoldable pub erc20_approve_body : Text → Text → Text → ℤ → Answer Text
  unfolding erc20_body
  erc20_approve_body sender_addr token_addr spender amount =
      erc20_body (text "approve") sender_addr token_addr spender amount

  unfoldable pub erc20_transfer_body : Text → Text → Text → ℤ → Answer Text
  unfolding erc20_body
  erc20_transfer_body sender_addr token_addr receiver_addr amount =
      erc20_body (text "transfer") sender_addr token_addr receiver_addr amount
