-- ===== src/Lib.antt =====
-- Verification library of utils-go: the cache of asynccache/, the configuration managers of loader/,
-- the alerter of alert/, the readers of JSON and the checksum addresses of json_extract/ and util/, and
-- the authorisation of requests by tokens (util/, errors/, response/, middleware/).
--
-- asynccache/ keeps values by key. Get and GetOrSet fetch a missing value by the Fetcher of the
-- options, through a singleflight group; a shared ticker of the refresh interval fetches all values
-- again, and one of the expire interval deletes the entries that were not used since its last tick.
-- The managers of loader/ read a database table into maps and answer from them: BridgeFeeManager asks
-- a TokenInfoManager for the decimals of a token, and TokenInfoManager adds the gas tokens that a
-- ChainInfoManager knows. The managers report to an Alerter; CommonAlerter is one of them. The handler of
-- middleware/auth.go checks the tokens that util/jwt.go makes, and answers through response/ with the
-- errors of errors/.
--
-- Base             shared names: Boolean tests, lists, signed integers over the native numbers
--                  (Base/Int), texts as lists of bytes (Base/Text, Base/Decimal), Go maps as lists of entries
--                  (Base/GoMap), maps of maps (Base/Nested), searches of a list (Base/Find) and
--                  results that may be a panic (Base/Outcome)
-- AsyncCache       asynccache/asynccache.go and atomic_error.go
--   Entry          type entry, Store, Touch, and type Error
--   Cache          SetDefault, Get, GetOrSet, Dump, DeleteIf, expire and refresh; the handlers that are
--                  started by `go` are recorded as events
--   Reads          what a client reads after SetDefault, Get and GetOrSet
--   Refresh        refresh, DeleteIf and Dump
--   Calls          sequences of calls and ticks, and the life of a key as an abstract machine
--   Expiry         when the expire ticks delete a key
--   Panics         atomic.Value.Store panics on a second dynamic type
--   Ticker         type sharedTicker with its lock, stopChan and loops; the sections of NewAsyncCache,
--                  Close and tick as moves (Balance: the invariant; Stuck: deadlock; SecondClose: a
--                  Close of a closed cache)
--   Registry       NewAsyncCache and Close over the maps of tickers (Start: when NewAsyncCache returns;
--                  Stuck: what a panic leaves)
-- Loader           loader/
--   Rows           the loop over the rows of a query, float64, decimal.Decimal, and FromUiString of
--                  util/common.go
--   Lanes          tables token, from chain, to chain
--   Dtc            loader/dtc.go (Load: LoadAllDtc; Tiers: the big.Int methods)
--   BridgeFee      loader/bridge_fee.go (Load: LoadAllBridgeFee; Fee: the rounding)
--   ChainInfo      loader/chain_info.go (Load: LoadAllChains; Ids: chain ids as integers)
--   TokenInfo      loader/token_info.go (Tokens: AddToken; Stored: the names of scanned rows;
--                  Gas: the gas tokens)
--   AggregatorConfig, Aggregator
--                  loader/aggregator_route.go (Load: LoadAll; Routes: the queries after it; Best:
--                  FindBestRoute; Fees: calculateFee; Chains: the supported chains)
--   Table          the load of one table, for the managers of Account, Blacklist, CctpChain (MinValue),
--                  Exchange (with update_price.go), LpInfo, MultiTransfer and PopularList, each in the file
--                  of loader/ that it names
--   MakerAddress   loader/maker_address.go
--   Groups         maps to slices, filled by append
--   NodeInfo       loader/node_info.go (Preferred: the nodes that are picked)
--   CmsUser        loader/cms_user.go (Roles: whom HasRole gives a role)
--   Commission     loader/channel_commission_ratio.go (Thresholds: the ratio that is found after a load)
-- Alert            alert/common.go: CommonAlerter (Spacing: how far apart alerts are)
-- Convert          convert/convert.go
-- JsonExtract      json_extract/json_extract.go (Value: decoded JSON; Segment: the parts of a path; Extract:
--                  the functions; RoundTrip: paths printed from steps)
-- Util             util/common.go (Hex), util/address.go and owlconsts/address.go (Address; Checksum: its
--                  theorems), util/page.go (Page), util/jwt.go (Token), util/env.go and
--                  util/generate.go (Env)
-- Web              errors/error.go (Errors; Info: WithInfo), response/response.go (Response),
--                  middleware/auth.go (Auth; Gate: whom the handler lets through; Session: that tokens
--                  of util/jwt.go pass it)
-- Txn              txn/ (Solana: txn/solana/common.go and spl.go, Body: ToSolanaBody; Spl2022: txn/solana/spl2022.go and
--                  util/svm_instruction.go; Bitcoin: txn/btc; Evm: txn/evm): the bodies of
--                  transactions and wrapped instructions, over the SDKs of the chains
-- Log              log/logger.go
-- Rpc              rpc/, the clients of the chains
--   Select         rpc/rpc.go: GetRpc
--   Evm            rpc/evm.go (Tokens: the kept tokens), with CallData: GetERC20TransferData (Decode: what
--                  the data says)
--   Solana         rpc/solana.go (Balance: the amounts as int64; Tokens: the kept tokens), with Tlv:
--                  getExtensionData (Entries: what it finds in any bytes)
--   TokenCache     the TokenInfoManager of the clients, of loader/ (Once: what later calls answer)
--   Benfen, Zkslite, Bitcoin, Sui, Starknet, Fuel, Ton
--                  rpc/bfc.go and the files of their names; JsonRpc is shared by the first two, and Bitcoin
--                  has the configuration of apollosdk/apolloconfig.go
-- Network          network/http.go (Request) and httputils/httputils.go (Client), with the exchange that their
--                  functions share (Headers: what a request carries; Sent: what holds of an
--                  exchange; Replies: of each function)
-- Task             task/task.go (Daily: when the daily task runs)
--
-- State is passed explicitly. A method is one step on the state of its object: the read and write locks
-- of the managers order whole calls, and sync.Map is used one operation at a time. Only the shared
-- ticker is cut finer, into the moves between which its goroutines interleave. The order in which a
-- `range` visits a map is the order of the list that stands for it; no theorem of a map depends on it.
-- Recursion is structural; on fuel are the digits of a printed number (20 steps, enough for any int64), the
-- bytes of a number n (n steps) and getExtensionData (one step more than there are bytes; proved
-- enough in Rpc/Tlv/Entries). Integers are big.Int, or int64 and int32 that the
-- source only compares and stores; the one conversion and subtraction in 32 bits (the scale of a bridge
-- fee) wraps around, and the differences of Unix times fit in 64 bits.
--
-- Parameters, for code of other packages: the singleflight group, the float64 operations with
-- strconv.ParseFloat, decimal.Decimal, the texts of big.Rat, the constructors of chain clients,
-- sort.Slice, SetString of math/big, encoding/json, the hashes (SHA-256, Keccak of starknet.go,
-- HexToAddress of go-ethereum), solana-go, the other SDKs of chains with what their nodes answer, the other calls of go-ethereum, Int64 and Uint64 of
-- big.Int, logrus, golang-jwt, net/http and time.Date. What a query returns is an argument of the load that makes it.
--
-- Not modelled: database/sql; the requests of the Lark clients (alert/) and of gin; generated contract bindings (abi/); the methods of rpc/ that
-- only return an error; the setup of logrus (log/); swap_token_info.go, src_tx.go and dst_tx.go of loader/, which
-- run single SQL statements; races inside one method of a cache.
pub mod Base
pub mod AsyncCache
pub mod Loader
pub mod Alert
pub mod JsonExtract
pub mod Util
pub mod Web
pub mod Convert
pub mod Txn
pub mod Log
pub mod Rpc
pub mod Network
pub mod Task
