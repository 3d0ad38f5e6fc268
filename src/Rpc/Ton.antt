-- ===== src/Rpc/Ton.antt =====
-- rpc/ton.go: TonRpc. tonutils-go and what the node answers are parameters. A method that has to connect first keeps
-- the client in the ChainInfo. The methods that return "not implement" are left out.
use utils_go.Base.{ℕ, Bool, true, false, Option, none, some, ◌++◌, if◌then◌else◌}
use utils_go.Base.Int.{ℤ}
use utils_go.Base.Text.{Text, text}
use utils_go.Loader.ChainInfo.{ChainInfo}
use utils_go.Rpc.TokenCache.{int64_of}
use utils_go.Util.Address.{is_native_address}
use utils_go.Util.Token.{Answer, answer, refused, ◌>>=◌}

pub record TonNode (C : Type 0) : Type 1 where
  pub Address : Type 0
  pub Block : Type 0
  pub Wallet : Type 0
  -- AddConnectionsFromConfigUrl and NewAPIClient(...).WithRetry()
  pub connect : Text → Answer C
  pub parse_addr : Text → Answer Address
  -- the SeqNo of CurrentMasterchainInfo
  pub current_seq_no : C → Answer ℕ
  pub masterchain_info : C → Answer Block
  -- State.Balance.Nano() of GetAccount
  pub account_balance : C → Block → Address → Answer ℤ
  -- NewJettonMasterClient with GetJettonWallet, of a minter and an owner
  pub jetton_wallet : C → Address → Address → Answer Wallet
  pub wallet_balance : Wallet → Answer ℤ

module _ {C : Type 0} (node : TonNode C) where
  -- A client that is there, or the result of a connection.
  unfoldable pub client_of : ChainInfo C → Option C → ChainInfo C × Answer C
  client_of chain (some client) = (chain, answer client)
  client_of chain none = elim (node.connect chain.rpc_end_point) [
    | answer client ↦ (record chain { client = some client }, answer client)
    | refused msg ↦ (chain, refused (text "error connecting to ton " ++ msg))
  ]

  unfoldable pub get_client : ChainInfo C → ChainInfo C × Answer C
  unfolding client_of
  get_client chain = client_of chain chain.client

  unfoldable pub get_latest_block_number : ChainInfo C → ChainInfo C × Answer ℤ
  unfolding get_client int64_of
  get_latest_block_number chain =
      let (chain', connected) = get_client chain in
      (chain', do client ← connected; seq_no ← node.current_seq_no client; answer (int64_of seq_no))

  -- What follows the connection.
  unfoldable pub balance_from : C → node.Address → Text → Answer ℤ
  unfolding is_native_address
  balance_from client addr token_addr =
      if is_native_address token_addr
      then node.masterchain_info client >>= (λ block. node.account_balance client block addr)
      else node.parse_addr token_addr
        >>= (λ minter_addr. node.jetton_wallet client minter_addr addr >>= node.wallet_balance)

  unfoldable pub get_balance : ChainInfo C → Text → Text → ChainInfo C × Answer ℤ
  unfolding get_client balance_from
  get_balance chain owner_addr token_addr = elim (node.parse_addr owner_addr) [
    | refused msg ↦ (chain, refused msg)
    | answer addr ↦
        let (chain', connected) = get_client chain in
        (chain', connected >>= (λ client. balance_from client addr token_addr))
  ]

  unfoldable pub is_address_valid : Text → Bool
  is_address_valid addr = elim (node.parse_addr addr) [ answer a ↦ true | refused msg ↦ false ]
