-- ===== src/Rpc/CallData.antt =====
-- rpc/evm.go: GetERC20TransferData. The hash, the bytes of an address and LeftPadBytes are parameters;
-- big.Int's Bytes is written out.
pub mod Decode
use utils_go.Base.{ℕ, zero, suc, ◌+◌, ◌/◌, ◌%◌, List, [], ◌∷◌, ◌++◌, nat_beq, take, if◌then◌else◌}
use utils_go.Base.Int.{ℤ, pos_part, neg_part}
use utils_go.Base.Text.{Text, text}

-- The absolute value of a big.Int.
abbrev pub abs : ℤ → ℕ
abs z = pos_part z + neg_part z

-- The bytes of a number, the highest first and without leading zeros; n rounds are enough for n.
unfoldable pub bytes_go : ℕ → ℕ → List ℕ
bytes_go zero n = []
bytes_go (suc fuel) n =
    let rest = bytes_go fuel (n / 256) in if nat_beq n 0 then [] else rest ++ (n % 256) ∷ []

-- big.Int's Bytes
unfoldable pub big_bytes : ℤ → List ℕ
unfolding bytes_go
big_bytes z = bytes_go (abs z) (abs z)

pub record Eth : Type 0 where
  -- sha3.NewLegacyKeccak256 with Write and Sum
  pub keccak256 : Text → List ℕ
  -- common.HexToAddress(s).Bytes()
  pub address_bytes : Text → List ℕ
  pub left_pad_bytes : List ℕ → ℕ → List ℕ

unfoldable pub get_erc20_transfer_data : Eth → Text → ℤ → List ℕ
unfolding big_bytes
get_erc20_transfer_data eth recipient value =
    let meth_id = take 4 (eth.keccak256 (text "transfer(address,uint256)")) in
    let padded_address = eth.left_pad_bytes (eth.address_bytes recipient) 32 in
    meth_id ++ (padded_address ++ eth.left_pad_bytes (big_bytes value) 32)
