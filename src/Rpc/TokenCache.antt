-- ===== src/Rpc/TokenCache.antt =====
-- rpc/evm.go, rpc/solana.go and rpc/sui.go: what their GetTokenInfo share, the TokenInfoManager of a client
-- that keeps the tokens which the chain told. Once: what later calls answer.
pub mod Once
use utils_go.Base.{ℕ, ◌-◌, ◌^◌, ltb, Option, none, some, if◌then◌else◌}
use utils_go.Base.Int.{ℤ, pos, negsuc}
use utils_go.Base.Text.{Text}
use utils_go.Loader.TokenInfo.{
  TokenInfo, TokenInfoManager, get_by_chain_name_token_addr, add_token_info,
}
use utils_go.Util.Token.{Answer, answer, refused}

-- int64(w) of a uint64
unfoldable pub int64_of : ℕ → ℤ
int64_of w = if ltb w (2 ^ 63) then pos w else negsuc (2 ^ 64 - w - 1)

-- w.tokenInfoMgr.AddTokenInfo(token); return token, nil. An error adds nothing.
unfoldable pub add_fetched :
    Answer TokenInfo → TokenInfoManager → TokenInfoManager × Answer TokenInfo
unfolding add_token_info
add_fetched (answer token) mgr = (add_token_info token mgr, answer token)
add_fetched (refused msg) mgr = (mgr, refused msg)

-- if ok { return tokenInfo, nil }, and else the fetch.
unfoldable pub known_or_fetched :
    Option TokenInfo → Answer TokenInfo → TokenInfoManager → TokenInfoManager × Answer TokenInfo
unfolding add_fetched
known_or_fetched (some token) fetched mgr = (mgr, answer token)
known_or_fetched none fetched mgr = add_fetched fetched mgr

-- tokenInfo, ok := w.tokenInfoMgr.GetByChainNameTokenAddr(...), and what follows.
unfoldable pub cached :
    Text → Text → Answer TokenInfo → TokenInfoManager → TokenInfoManager × Answer TokenInfo
unfolding known_or_fetched
cached chain addr fetched mgr =
    known_or_fetched (get_by_chain_name_token_addr mgr chain addr) fetched mgr
