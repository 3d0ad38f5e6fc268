-- ===== src/Loader/BridgeFee/Load.antt =====
-- loader/bridge_fee.go: what GetBridgeFee finds after LoadAllBridgeFee.
use utils_go.Base.{Bool, ◌==◌, ◌&&◌}
use utils_go.Base.Text.{Text, text_eq, to_lower}
use utils_go.Loader.Rows.{Rows}
use utils_go.Loader.BridgeFee.{BridgeFee}

-- The lane of a BridgeFee, in lower case.
abbrev pub is_fee_lane : {F : Type 0} → Text → Text → Text → BridgeFee F → Bool
is_fee_lane token from to fee =
    to_lower fee.token_name == token
    && (to_lower fee.from_chain_name == from && to_lower fee.to_chain_name == to)
