-- ===== src/Rpc/Select.antt =====
-- rpc/rpc.go: GetRpc, which picks the client of a chain, and Backend of the clients.
use utils_go.Base.{◌≡◌, ◌↔◌, arith, ◌++◌, if◌then◌else◌, ◌==◌}
use utils_go.Base.Int.{ℤ, pos, int_eq}
use utils_go.Base.Text.{text}
use utils_go.Base.Decimal.{format_int}
use utils_go.Util.Token.{Answer, answer, refused}

pub data Client : Type 0 where
  evm starknet solana bitcoin zkslite ton benfen sui fuel : Client

-- The client of the backend of a chain.
unfoldable pub get_rpc : ℤ → Answer Client
unfolding format_int
get_rpc backend =
    if backend == pos 1
    then answer evm
    else if backend == pos 2
    then answer starknet
    else if backend == pos 3
    then answer solana
    else if backend == pos 4
    then answer bitcoin
    else if backend == pos 5
    then answer zkslite
    else if backend == pos 6
    then answer ton
    else if backend == pos 8
    then answer benfen
    else if backend == pos 9
    then answer sui
    else if backend == pos 10
    then answer fuel
    else refused (text "unsupport backend " ++ format_int backend)

-- The methods Backend.
unfoldable pub backend_of : Client → ℤ
backend_of evm = pos 1
backend_of starknet = pos 2
backend_of solana = pos 3
backend_of bitcoin = pos 4
backend_of zkslite = pos 1
backend_of ton = pos 6
backend_of benfen = pos 8
backend_of sui = pos 9
backend_of fuel = pos 10

-- The number under which the clients stand in GetRpc.
abbrev pub registered : Client → ℤ
registered zkslite = pos 5
registered client = backend_of client

-- GetRpc returns a client exactly for the number under which it stands, which Backend of the client gives back but
-- for the client of zkSync Lite.
pub get_rpc_iff :
    (backend : ℤ) (client : Client)
    → (get_rpc backend ≡ answer client) ↔ (backend ≡ registered client)
unfolding get_rpc backend_of
get_rpc_iff (pos n) evm = ground arith
get_rpc_iff backend client = ground arith
