-- ===== src/Loader.antt =====
-- loader/: the managers that load a database table into maps and answer from them.
pub mod Rows
pub mod Lanes
pub mod Groups
pub mod NodeInfo
pub mod CmsUser
pub mod Table
pub mod Account
pub mod MultiTransfer
pub mod Blacklist
pub mod Exchange
pub mod LpInfo
pub mod MakerAddress
pub mod PopularList
pub mod CctpChain
pub mod Dtc
pub mod ChainInfo
pub mod TokenInfo
pub mod BridgeFee
pub mod Commission
pub mod AggregatorConfig
pub mod Aggregator
pub mod Tests
