-- ===== src/Rpc/Tests.antt =====
-- rpc/: the theorems on concrete bytes, calls and nodes.
use utils_go.Base.{
  ℕ, ◌+◌, ◌-◌, ◌^◌, ◌<◌, ◌≤◌, ◌≡◌, ◌↔◌, refl, none, some, List, [], ◌∷◌, ◌++◌, arith, leb, length,
  if◌then◌else◌, All, Bool-cases, inl, inr, leb→le,
}
use utils_go.Base.Int.{ℤ, pos, negsuc, ◌<ℤ◌}
use utils_go.Base.Text.{text, to_lower}
use utils_go.Rpc.Tlv.{get_extension_data}
use utils_go.Rpc.Tlv.Entries.{
  Entry, IsEntry, IsCut, encode, entry_of_type, get_extension_data_lem, get_extension_data-encode,
}
use utils_go.Rpc.CallData.{Eth, get_erc20_transfer_data}
use utils_go.Rpc.CallData.Decode.{
  IsDocumented, replicate, decode_transfer, decode-get_erc20_transfer_data,
}
use utils_go.Rpc.Solana.{
  SolanaNode, SolanaRpc, reply, failed, get_balance, get_token_info, new_solana_rpc,
}
use utils_go.Rpc.Solana.Balance.{held, get_balance_exact}
use utils_go.Rpc.Solana.Tokens.{get_token_info-lower}
use utils_go.Loader.ChainInfo.{ChainInfo}
use utils_go.Loader.Rows.{key}
use utils_go.Loader.Tests.Chains.{chain_row}
use utils_go.Loader.TokenInfo.{TokenInfo, zero_token, get_by_chain_name_token_addr}
use utils_go.Txn.Tests.{numbers}
use utils_go.Base.Nested.{lookup2}
use utils_go.Base.GoMap.{lookup}
use utils_go.Util.Token.{Answer, answer}

-- Two entries, and a tail that announces more than it holds.
abbrev tlv_bytes : List ℕ
tlv_bytes = 18 ∷ 0 ∷ 1 ∷ 0 ∷ 7 ∷ 19 ∷ 0 ∷ 2 ∷ 0 ∷ 65 ∷ 66 ∷ 19 ∷ 0 ∷ 9 ∷ 0 ∷ 1 ∷ []

finds_extension :
    (get_extension_data 19 tlv_bytes ≡ some (65 ∷ 66 ∷ []))
    × (get_extension_data 20 tlv_bytes ≡ none)
unfolding get_extension_data
finds_extension = (refl, refl)

get_extension_data_lem_example :
    (entries : List Entry) × (tail : List ℕ) × (tlv_bytes ≡ encode entries tail)
    × All IsEntry entries
    × IsCut tail
    × ((t : ℕ) → get_extension_data t tlv_bytes ≡ entry_of_type t entries)
get_extension_data_lem_example = get_extension_data_lem tlv_bytes (omega arith)

abbrev two_entries : List Entry
two_entries =
    record { entry_type = 18; value = 7 ∷ [] }
    ∷ record { entry_type = 19; value = 65 ∷ 66 ∷ [] }
    ∷ []

get_extension_data-encode_example :
    get_extension_data 19 (encode two_entries (1 ∷ 2 ∷ [])) ≡ some (65 ∷ 66 ∷ [])
unfolding entry_of_type
get_extension_data-encode_example =
    get_extension_data-encode 19 two_entries (1 ∷ 2 ∷ []) (unfold IsCut in tt)

-- A stand-in for go-ethereum: bytes of the documented lengths.
abbrev pad : List ℕ → ℕ → List ℕ
pad s l = if leb l (length s) then s else replicate (l - length s) 0 ++ s

abbrev eth : Eth
eth = record {
  keccak256 = λ s. replicate 32 0xa9;
  address_bytes = λ s. replicate 20 0x11;
  left_pad_bytes = pad;
}

pads_eth : (s : List ℕ) (l : ℕ) → length s ≤ l → pad s l ≡ replicate (l - length s) 0 ++ s
pads_eth s l h = elim (Bool-cases (leb l (length s))) [
  | inl full ↦
      let none_left : l - length s ≡ 0 = omega (arith, leb→le l (length s) full) in
      rw (full, none_left) (unfold replicate in refl)
  | inr short ↦ rw short refl
]

keeps_eth : (s : List ℕ) (l : ℕ) → l ≤ length s → pad s l ≡ s
keeps_eth s l h = ground arith

eth-IsDocumented : IsDocumented eth
unfolding replicate
eth-IsDocumented = record {
  hash_length = λ s. refl;
  address_length = λ s. refl;
  pads = pads_eth;
  keeps = keeps_eth;
}

decode-get_erc20_transfer_data_example :
    decode_transfer (get_erc20_transfer_data eth (text "0x11") (pos 1000))
    ≡ some (replicate 4 0xa9, replicate 20 0x11, 1000)
unfolding replicate
decode-get_erc20_transfer_data_example =
    decode-get_erc20_transfer_data eth eth-IsDocumented (text "0x11") (pos 1000)

-- A negative amount is sent as its absolute value.
transfers_absolute_value :
    get_erc20_transfer_data eth (text "0x11") (negsuc 4)
    ≡ get_erc20_transfer_data eth (text "0x11") (pos 5)
unfolding get_erc20_transfer_data
transfers_absolute_value = refl

-- A node of which every account has 2 ^ 63 + 5 lamports, or tokens of 3.
abbrev node : SolanaNode
node = record {
  sdk = record numbers { public_key_from_base58 = λ s. answer (length s) };
  find_token_metadata_address = λ pk. reply pk;
  account_info = λ pk. reply (record { lamports = 2 ^ 63 + 5; binary = pk ∷ [] });
  metadata_deserialize =
      λ bytes. reply (record { name = text "Token"; symbol = text "TOK"; uri = [] });
  decode_mint = λ bytes. reply (record { mint_decimals = 6; supply = 100 });
  borsh_metadata = λ bytes. none;
  multiple_accounts = λ pks. reply ([] ∷ (7 ∷ []) ∷ []);
  decode_account = λ bytes. elim bytes [
    | [] ↦ none
    | ◌∷◌ b rest ↦ some (record { amount = 3; delegated_amount = 1 })
  ];
  Signature = ℕ;
  signature_from_base58 = λ s. reply 0;
  transaction = λ sig. reply none;
  latest_slot = reply 9;
}

get_balance_exact_example :
    (v : ℤ) × (get_balance node (text "owner") (text "0x0") ≡ reply v)
    × ((v ≡ pos (2 ^ 63 + 5)) ↔ (2 ^ 63 + 5 < 2 ^ 63))
    × ((v <ℤ pos 0) ↔ (2 ^ 63 ≤ 2 ^ 63 + 5))
unfolding held
get_balance_exact_example =
    get_balance_exact node (text "owner") (text "0x0") (2 ^ 63 + 5) refl (omega arith)

balances :
    (get_balance node (text "owner") (text " 0x0") ≡ reply (negsuc (2 ^ 63 - 6)))
    × (get_balance node (text "owner") (text "mint") ≡ reply (pos 3))
unfolding get_balance
balances = (refl, refl)

abbrev chain : ChainInfo ℕ
chain = record { row = chain_row; client = none }

-- A node that does not answer.
abbrev silent : SolanaNode
silent = record node { account_info = λ pk. failed (text "no answer") }

abbrev asked : SolanaRpc ℕ × Answer TokenInfo
asked = get_token_info node (new_solana_rpc chain) (text "Mint")

get_token_info-lower_example : get_token_info silent asked.0 (text "mINT ") ≡ (
  asked.0,
  answer (record zero_token {
    token_name = text "TOK";
    chain_name = text "a";
    token_address = text "Mint";
    decimals = pos 6;
    full_name = text "Token";
    total_supply = some (pos 100);
  }),
)
unfolding get_token_info new_solana_rpc key to_lower get_by_chain_name_token_addr lookup2 lookup
get_token_info-lower_example =
    get_token_info-lower node silent (new_solana_rpc chain) asked.0 (text "Mint") (text "mINT ")
      (record zero_token {
        token_name = text "TOK";
        chain_name = text "a";
        token_address = text "Mint";
        decimals = pos 6;
        full_name = text "Token";
        total_supply = some (pos 100);
      })
      refl refl refl refl refl refl
