-- ===== src/Txn.antt =====
-- txn/: the builders of transactions. Solana: txn/solana/common.go and spl.go (Body: ToSolanaBody); Spl2022:
-- txn/solana/spl2022.go; Bitcoin: txn/btc; Evm: txn/evm.
pub mod Solana
pub mod Spl2022
pub mod Bitcoin
pub mod Evm
pub mod Tests
