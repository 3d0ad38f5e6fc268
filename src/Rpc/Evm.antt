-- ===== src/Rpc/Evm.antt =====
-- rpc/evm.go: EvmRpc. go-ethereum and the bindings of ERC-20 are parameters, and so is what the node
-- answers; the client of the chain is there. Errors are what they print.
pub mod Tokens
use utils_go.Base.{
  ℕ, ◌%◌, ◌^◌, ltb, leb, nat_beq, length, Bool, true, false, not, ◌||◌, Option, none, some, List,
  [], ◌∷◌, ◌++◌, map, if◌then◌else◌, ◌==◌,
}
use utils_go.Base.Int.{ℤ, pos, leb_ℤ, wrap_i32}
use utils_go.Base.Find.{any}
use utils_go.Base.Text.{Text, text, text_eq, text_beq, trim_space}
use utils_go.Loader.ChainInfo.{ChainInfo}
use utils_go.Loader.TokenInfo.{TokenInfo, TokenInfoManager, zero_token, new_token_info_manager}
use utils_go.Rpc.CallData.{Eth, get_erc20_transfer_data}
use utils_go.Rpc.TokenCache.{int64_of, cached}
use utils_go.Util.Address.{is_native_address}
use utils_go.Util.Hex.{is_hex_string_zero}
use utils_go.Util.Token.{Answer, answer, refused, ◌>>=◌}

-- rpc.BatchElem of an eth_call at the latest block
pub record BatchElem : Type 0 where
  pub to : Text
  pub call_data : Text

-- The result of an element, or its Error.
pub record Batch : Type 0 where
  pub symbol : Answer (List ℕ)
  pub decimals : Answer (List ℕ)
  pub name : Answer (List ℕ)
  pub total_supply : Answer (List ℕ)

pub record Receipt : Type 0 where
  pub status : ℕ
  pub block_number : ℤ

-- ethereum.CallMsg; an unset Value or Data is `none`.
pub record CallMsg (Address : Type 0) : Type 0 where
  pub from : Address
  pub to : Address
  pub value : Option ℤ
  pub call_data : Option (List ℕ)

pub record EvmNode : Type 1 where
  pub Address : Type 0
  pub is_hex_address : Text → Bool
  pub hex_to_address : Text → Address
  pub address_hex : Address → Text
  pub eth : Eth
  -- abi.Pack of a method without arguments, hexutil.Encode, and hexutil.Decode of Bytes.String
  pub pack : Text → List ℕ
  pub hex_encode : List ℕ → Text
  pub decode_string : List ℕ → Answer (List ℕ)
  -- big.Int's SetBytes and Int64, and int32 of Uint64
  pub set_bytes : List ℕ → ℤ
  pub int64 : ℤ → ℤ
  pub int32_of_uint64 : ℤ → ℤ
  pub batch_call : BatchElem → BatchElem → BatchElem → BatchElem → Answer Batch
  -- NewErc20 and Allowance, of a token, an owner and a spender
  pub allowance : Address → Address → Address → Answer ℤ
  -- BalanceAt, and NewErc20 with BalanceOf; no block number is the latest block
  pub balance_at : Address → Option ℤ → Answer ℤ
  pub balance_of : Address → Address → Option ℤ → Answer ℤ
  pub transaction_receipt : Text → Answer (Option Receipt)
  pub latest_block : Answer ℕ
  pub estimate : CallMsg Address → Answer ℕ
  pub code_at : Address → Answer (List ℕ)
  pub gas_price : Answer ℤ
  pub gas_tip_cap : Answer ℤ
  -- the BaseFee of the latest header, nil before EIP-1559
  pub base_fee : Answer (Option ℤ)

pub record EvmRpc (C : Type 0) : Type 0 where
  pub token_info_mgr : TokenInfoManager
  pub chain_info : ChainInfo C

unfoldable pub new_evm_rpc : {C : Type 0} → ChainInfo C → EvmRpc C
new_evm_rpc chain_info = record { token_info_mgr = new_token_info_manager; chain_info = chain_info }

-- Names of owlconsts/chain_name.go, where a transfer to an account without code costs 21000.
abbrev pub plain_transfer_chains : List Text
plain_transfer_chains =
    text "ScrollMainnet"
    ∷ text "EthereumMainnet"
    ∷ text "OptimismMainnet"
    ∷ text "BaseMainnet"
    ∷ text "MantaMainnet"
    ∷ text "LineaMainnet"
    ∷ text "BevmMainnet"
    ∷ text "Bevm2Mainnet"
    ∷ text "TaikoMainnet"
    ∷ text "AILayerMainnet"
    ∷ []

module _ {C : Type 0} where
  unfoldable pub native_token : ChainInfo C → Text → TokenInfo
  native_token chain token_addr = record zero_token {
    token_name = chain.gas_token_name;
    chain_name = chain.name;
    token_address = token_addr;
    decimals = chain.gas_token_decimal;
    full_name = chain.alias_name;
    total_supply = some (pos 0);
    url = chain.explorer_url;
  }

-- The error of an element: "get token error eth_call" and its text.
unfoldable pub element : Answer (List ℕ) → Answer (List ℕ)
element (answer result) = answer result
element (refused msg) = refused (text "get token error eth_call " ++ msg)

module _ (node : EvmNode) where
  unfoldable pub eth_call : Text → Text → BatchElem
  eth_call token_addr method = record {
    to = token_addr;
    call_data = node.hex_encode (node.pack method);
  }

  -- The two methods for balances, on texts that are trimmed; `none` is the latest block.
  unfoldable pub balance : Text → Text → Option ℤ → Answer ℤ
  unfolding is_hex_string_zero
  balance owner_addr token_addr block =
      if is_hex_string_zero token_addr
      then node.balance_at (node.hex_to_address owner_addr) block
      else node.balance_of (node.hex_to_address token_addr) (node.hex_to_address owner_addr) block

  -- types.ReceiptStatusSuccessful is 1.
  unfoldable pub tx_status : Option Receipt → Answer (Bool × ℤ)
  tx_status none = refused (text "get receipt failed")
  tx_status (some receipt) = answer (nat_beq receipt.status 1, node.int64 receipt.block_number)

  unfoldable pub native_message : Text → Text → ℤ → CallMsg node.Address
  native_message from_address recipient value = record {
    from = node.hex_to_address from_address;
    to = node.hex_to_address recipient;
    value = some value;
    call_data = none;
  }

  unfoldable pub token_message : Text → Text → Text → ℤ → CallMsg node.Address
  unfolding get_erc20_transfer_data
  token_message from_address recipient token_address value = record {
    from = node.hex_to_address from_address;
    to = node.hex_to_address token_address;
    value = none;
    call_data = some (get_erc20_transfer_data node.eth recipient value);
  }

module _ {C : Type 0} (node : EvmNode) where
  unfoldable pub is_address_valid : EvmRpc C → Text → Bool
  is_address_valid w addr = node.is_hex_address addr

  unfoldable pub get_checksum_address : EvmRpc C → Text → Text
  get_checksum_address w addr = node.address_hex (node.hex_to_address addr)

  -- The token of what was read, or "not found".
  unfoldable pub checked_token : ChainInfo C → Text → Text → Text → ℤ → ℤ → Answer TokenInfo
  checked_token chain token_addr symbol name decimals total_supply =
      if leb_ℤ decimals (pos 0) || nat_beq (length symbol) 0
      then refused (text "not found")
      else answer (record zero_token {
        token_name = symbol;
        chain_name = chain.name;
        token_address = token_addr;
        decimals = node.int32_of_uint64 decimals;
        full_name = name;
        total_supply = some total_supply;
      })

  -- What GetTokenInfo asks the node. Symbol and name are the bytes that the contract returned.
  unfoldable pub fetch_token : ChainInfo C → Text → Answer TokenInfo
  unfolding eth_call element checked_token
  fetch_token chain token_addr = do
    batch ←
        node.batch_call (eth_call node token_addr (text "symbol"))
          (eth_call node token_addr (text "decimals")) (eth_call node token_addr (text "name"))
          (eth_call node token_addr (text "totalSupply"))
    symbol_hex ← element batch.symbol
    decimals_hex ← element batch.decimals
    name_hex ← element batch.name
    total_supply_hex ← element batch.total_supply
    symbol ← node.decode_string symbol_hex
    name ← node.decode_string name_hex
    decimals_bytes ← node.decode_string decimals_hex
    total_supply_bytes ← node.decode_string total_supply_hex
    checked_token chain token_addr symbol name (node.set_bytes decimals_bytes)
        (node.set_bytes total_supply_bytes)

  unfoldable pub get_token_info : EvmRpc C → Text → EvmRpc C × Answer TokenInfo
  unfolding is_hex_string_zero native_token cached fetch_token
  get_token_info w token_addr =
      if is_hex_string_zero token_addr
      then (w, answer (native_token w.chain_info token_addr))
      else let (mgr, info) =
          cached w.chain_info.name token_addr (fetch_token w.chain_info token_addr)
            w.token_info_mgr in
        (record w { token_info_mgr = mgr }, info)

  unfoldable pub get_allowance : EvmRpc C → Text → Text → Text → Answer ℤ
  get_allowance w owner_addr token_addr spender_addr =
      node.allowance (node.hex_to_address token_addr) (node.hex_to_address owner_addr)
        (node.hex_to_address spender_addr)

  unfoldable pub get_balance_at_block_number : EvmRpc C → Text → Text → ℤ → Answer ℤ
  unfolding balance trim_space
  get_balance_at_block_number w owner_addr token_addr block_number =
      balance node (trim_space owner_addr) (trim_space token_addr) (some block_number)

  unfoldable pub get_balance : EvmRpc C → Text → Text → Answer ℤ
  unfolding balance trim_space
  get_balance w owner_addr token_addr =
      balance node (trim_space owner_addr) (trim_space token_addr) none

  unfoldable pub is_tx_success : EvmRpc C → Text → Answer (Bool × ℤ)
  unfolding tx_status
  is_tx_success w hash = do receipt ← node.transaction_receipt hash; tx_status node receipt

  unfoldable pub get_latest_block_number : EvmRpc C → Answer ℤ
  unfolding int64_of
  get_latest_block_number w = do block_number ← node.latest_block; answer (int64_of block_number)

  unfoldable pub is_contract_address : EvmRpc C → Text → Answer Bool
  is_contract_address w address = do
    code ← node.code_at (node.hex_to_address address)
    answer (ltb 200 (length code))

  -- the cases of the switch
  unfoldable pub is_plain_transfer : EvmRpc C → Text → Answer Bool
  unfolding is_contract_address any text_beq
  is_plain_transfer w recipient =
      if any (λ name. name == w.chain_info.name) plain_transfer_chains
      then is_contract_address w recipient >>= (λ is_contract. answer (not is_contract))
      else answer false

  unfoldable pub estimate_gas : EvmRpc C → Text → Text → Text → ℤ → Answer ℕ
  unfolding is_native_address is_plain_transfer native_message token_message
  estimate_gas w from_address recipient token_address value =
      if is_native_address token_address
      then is_plain_transfer w recipient >>= (λ plain.
        if plain
        then answer 21000
        else node.estimate (native_message node from_address recipient value))
      else node.estimate (token_message node from_address recipient token_address value)

  unfoldable pub suggest_gas_price : EvmRpc C → Answer ℤ
  suggest_gas_price w = node.gas_price

  unfoldable pub suggest_gas_tip_cap : EvmRpc C → Answer ℤ
  suggest_gas_tip_cap w = node.gas_tip_cap

  unfoldable pub get_base_fee : EvmRpc C → Answer (Option ℤ)
  get_base_fee w = node.base_fee
