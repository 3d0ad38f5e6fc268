-- ===== src/Util/Checksum.antt =====
-- util/address.go: what the checksum functions return.
pub mod Case
pub mod Fuel
pub mod Padding
pub mod Starknet
