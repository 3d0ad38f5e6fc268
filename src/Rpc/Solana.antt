-- ===== src/Rpc/Solana.antt =====
-- rpc/solana.go: SolanaRpc. solana-go, its decoders and what the node answers are parameters; the client of
-- the chain is there. The error rpc.ErrNotFound is told apart from the others.
pub mod Tokens
pub mod Balance
use utils_go.Base.{
  ℕ, ltb, length, drop, Bool, true, false, ◌||◌, Option, none, some, List, [], ◌∷◌, if◌then◌else◌,
  ◌==◌,
}
use utils_go.Base.Int.{ℤ, pos}
use utils_go.Base.Text.{Text, text, text_eq, text_beq, trim_space}
use utils_go.Loader.ChainInfo.{ChainInfo}
use utils_go.Loader.TokenInfo.{TokenInfo, TokenInfoManager, zero_token, new_token_info_manager}
use utils_go.Rpc.Tlv.{get_extension_data}
use utils_go.Rpc.TokenCache.{int64_of, cached}
use utils_go.Txn.Solana.{Sdk, get_ata_from_pk, get_2022_ata_from_pk}
use utils_go.Util.Hex.{is_hex_string_zero}
use utils_go.Util.Token.{Answer, answer, refused}

-- A value, rpc.ErrNotFound, or another error with what it prints.
pub data Reply (A : Type 0) : Type 0 where
  reply : A → Reply A
  not_found : Reply A
  failed : Text → Reply A

infixl 5 ◌>>=◌
abbrev pub ◌>>=◌ : {A B : Type 0} → Reply A → (A → Reply B) → Reply B
reply a >>= f = f a
not_found >>= f = not_found
failed msg >>= f = failed msg

-- An error of another function is not rpc.ErrNotFound.
abbrev pub of_answer : {A : Type 0} → Answer A → Reply A
of_answer (answer a) = reply a
of_answer (refused msg) = failed msg

abbrev pub to_answer : {A : Type 0} → Reply A → Answer A
to_answer (reply a) = answer a
to_answer not_found = refused (text "not found")
to_answer (failed msg) = refused msg

-- Lamports and GetBinary of an account.
pub record AccountInfo : Type 0 where
  pub lamports : ℕ
  pub binary : List ℕ

-- The fields of the metadata that are used.
pub record MetaData : Type 0 where
  pub name : Text
  pub symbol : Text
  pub uri : Text

-- token.Mint and token.Account
pub record Mint : Type 0 where
  pub mint_decimals : ℕ
  pub supply : ℕ

pub record TokenAccount : Type 0 where
  pub amount : ℕ
  pub delegated_amount : ℕ

-- receipt.Meta.Err == nil, and receipt.Slot
pub record Receipt : Type 0 where
  pub no_error : Bool
  pub slot : ℕ

pub record SolanaNode : Type 1 where
  pub sdk : Sdk
  pub find_token_metadata_address : sdk.Pk → Reply sdk.Pk
  pub account_info : sdk.Pk → Reply AccountInfo
  pub metadata_deserialize : List ℕ → Reply MetaData
  pub decode_mint : List ℕ → Reply Mint
  -- borsh.Deserialize of a slice that may be nil
  pub borsh_metadata : Option (List ℕ) → Option MetaData
  -- GetBinary of each account in the value
  pub multiple_accounts : List sdk.Pk → Reply (List (List ℕ))
  -- UnmarshalWithDecoder, which sets every field that is used
  pub decode_account : List ℕ → Option TokenAccount
  pub Signature : Type 0
  pub signature_from_base58 : Text → Reply Signature
  pub transaction : Signature → Reply (Option Receipt)
  pub latest_slot : Reply ℕ

pub record SolanaRpc (C : Type 0) : Type 0 where
  pub token_info_mgr : TokenInfoManager
  pub chain_info : ChainInfo C

unfoldable pub new_solana_rpc : {C : Type 0} → ChainInfo C → SolanaRpc C
new_solana_rpc chain_info = record {
  token_info_mgr = new_token_info_manager;
  chain_info = chain_info;
}

-- The token address stands for SOL.
unfoldable pub is_sol : Text → Bool
unfolding is_hex_string_zero text_beq
is_sol token_addr =
    is_hex_string_zero token_addr || token_addr == text "11111111111111111111111111111111"

unfoldable pub sol_token : {C : Type 0} → ChainInfo C → Text → TokenInfo
sol_token chain token_addr = record zero_token {
  token_name = text "SOL";
  chain_name = chain.name;
  token_address = token_addr;
  decimals = pos 9;
  full_name = text "Solana";
  total_supply = some (pos 0);
  url = text "https://solana.com";
}

abbrev pub unknown : MetaData
unknown = record { name = text "UNKNOWN"; symbol = text "UNKNOWN"; uri = [] }

unfoldable pub tx_status : Option Receipt → Reply (Bool × ℤ)
unfolding int64_of
tx_status none = failed (text "get receipt failed")
tx_status (some receipt) = reply (receipt.no_error, int64_of receipt.slot)

-- if err == rpc.ErrNotFound { return big.NewInt(0), nil }
unfoldable pub zero_if_missing : {A : Type 0} → (A → ℕ) → Reply A → Reply ℤ
unfolding int64_of
zero_if_missing of (reply a) = reply (int64_of (of a))
zero_if_missing of not_found = reply (pos 0)
zero_if_missing of (failed msg) = failed msg

module _ (node : SolanaNode) where
  unfoldable pub is_address_valid : Text → Bool
  is_address_valid addr = elim (node.sdk.public_key_from_base58 addr) [
    | answer pk ↦ true
    | refused msg ↦ false
  ]

  unfoldable pub get_account_info : node.sdk.Pk → Reply AccountInfo
  get_account_info owner = node.account_info owner

  unfoldable pub get_str_account_info : Text → Reply AccountInfo
  unfolding get_account_info trim_space
  get_str_account_info owner_addr = do
    ownerpk ← of_answer (node.sdk.public_key_from_base58 (trim_space owner_addr))
    get_account_info ownerpk

  -- The names in the account of the metadata, or "UNKNOWN" where there is none.
  unfoldable pub account_names : Reply AccountInfo → Reply MetaData
  account_names (reply info) = node.metadata_deserialize info.binary
  account_names not_found = reply unknown
  account_names (failed msg) = failed msg

  -- if len(data) > 166: the names in the extension 19 of the mint, where they can be read.
  unfoldable pub extension_names : List ℕ → MetaData → MetaData
  unfolding get_extension_data
  extension_names bytes names =
      if ltb 166 (length bytes)
      then elim (node.borsh_metadata (get_extension_data 19 (drop 166 bytes))) [
        | some metadata ↦ metadata
        | none ↦ names
      ]
      else names

  -- What GetTokenInfo asks the node.
  unfoldable pub fetch_token : {C : Type 0} → ChainInfo C → Text → Reply TokenInfo
  unfolding account_names extension_names get_account_info
  fetch_token chain token_addr = do
    mintpk ← of_answer (node.sdk.public_key_from_base58 token_addr)
    metapk ← node.find_token_metadata_address mintpk
    names ← account_names (get_account_info metapk)
    info ← get_account_info mintpk
    mint ← node.decode_mint info.binary
    let found = extension_names info.binary names
    reply (record zero_token {
      token_name = found.symbol;
      chain_name = chain.name;
      token_address = token_addr;
      decimals = pos mint.mint_decimals;
      full_name = found.name;
      total_supply = some (pos mint.supply);
      url = found.uri;
    })

  unfoldable pub get_token_info : {C : Type 0} → SolanaRpc C → Text → SolanaRpc C × Answer TokenInfo
  unfolding is_sol sol_token cached fetch_token
  get_token_info w token_addr =
      if is_sol token_addr
      then (w, answer (sol_token w.chain_info token_addr))
      else let (mgr, info) =
          cached w.chain_info.name token_addr (to_answer (fetch_token w.chain_info token_addr))
            w.token_info_mgr in
        (record w { token_info_mgr = mgr }, info)

  -- The loop over the accounts: the first that can be decoded.
  unfoldable pub first_account : List (List ℕ) → Reply TokenAccount
  first_account [] = not_found
  first_account (bytes ∷ accounts) =
      let rest = first_account accounts in
      elim (node.decode_account bytes) [ some account ↦ reply account | none ↦ rest ]

  unfoldable pub get_spl_account : Text → Text → Reply TokenAccount
  unfolding first_account get_ata_from_pk get_2022_ata_from_pk trim_space
  get_spl_account owner_addr token_addr = do
    ownerpk ← of_answer (node.sdk.public_key_from_base58 (trim_space owner_addr))
    mintpk ← of_answer (node.sdk.public_key_from_base58 (trim_space token_addr))
    owner_ata ← of_answer (get_ata_from_pk node.sdk ownerpk mintpk)
    owner_ata_2022 ← of_answer (get_2022_ata_from_pk node.sdk ownerpk mintpk)
    accounts ← node.multiple_accounts (owner_ata ∷ owner_ata_2022 ∷ [])
    first_account accounts

  unfoldable pub get_balance : Text → Text → Reply ℤ
  unfolding is_sol get_str_account_info get_spl_account zero_if_missing trim_space
  get_balance owner_addr token_addr =
      if is_sol (trim_space token_addr)
      then zero_if_missing (λ info. info.lamports) (get_str_account_info (trim_space owner_addr))
      else zero_if_missing (λ account. account.amount)
          (get_spl_account (trim_space owner_addr) (trim_space token_addr))

  unfoldable pub get_balance_at_block_number : Text → Text → ℤ → Reply ℤ
  unfolding get_balance
  get_balance_at_block_number owner_addr token_addr block_number = get_balance owner_addr token_addr

  unfoldable pub get_allowance : Text → Text → Text → Reply ℤ
  unfolding get_spl_account zero_if_missing
  get_allowance owner_addr token_addr spender_addr =
      zero_if_missing (λ account. account.delegated_amount) (get_spl_account owner_addr token_addr)

  unfoldable pub is_tx_success : Text → Reply (Bool × ℤ)
  unfolding tx_status
  is_tx_success hash = do
    sig ← node.signature_from_base58 hash
    receipt ← node.transaction sig
    tx_status receipt

  unfoldable pub get_latest_block_number : Reply ℤ
  unfolding int64_of
  get_latest_block_number = do block_number ← node.latest_slot; reply (int64_of block_number)
