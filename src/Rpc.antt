-- ===== src/Rpc.antt =====
-- rpc/: the clients of the chains, over parameters for the SDKs and the nodes. Select: rpc/rpc.go; Evm: rpc/evm.go
-- (CallData: GetERC20TransferData); Solana: rpc/solana.go (Tlv: getExtensionData); JsonRpc, Benfen,
-- Zkslite: rpc/bfc.go and rpc/zkslite.go; Bitcoin, Sui, Starknet, Fuel, Ton: the files of their names.
-- TokenCache: the tokens that a client keeps.
pub mod Tlv
pub mod CallData
pub mod TokenCache
pub mod Evm
pub mod Solana
pub mod JsonRpc
pub mod Benfen
pub mod Zkslite
pub mod Bitcoin
pub mod Sui
pub mod Starknet
pub mod Fuel
pub mod Ton
pub mod Select
mod Tests
