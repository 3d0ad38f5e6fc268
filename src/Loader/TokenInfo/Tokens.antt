-- ===== src/Loader/TokenInfo/Tokens.antt =====
-- loader/token_info.go: what the getters find after AddToken.
use utils_go.Base.{◌≡◌, refl, some, if◌then◌else◌, ◌==◌, ◌&&◌}
use utils_go.Base.Int.{ℤ}
use utils_go.Base.Text.{Text, text_eq}
use utils_go.Base.Nested.{lookup2-insert2}
use utils_go.Loader.Rows.{key}
use utils_go.Loader.TokenInfo.{
  TokenInfoManager, get_by_chain_name_token_addr, get_by_chain_name_token_name,
  get_by_chain_id_token_name, made_token, add_token, get_all_tokens,
}

-- After AddToken, the name and the address of the token, in any case and with any outer space, find
-- it on its chain, and every other name or address finds what it found before; the getter
-- by chain id and name, and the list of all tokens, answer as before.
pub get-add_token :
    (chain name addr q_chain q_name q_addr : Text) (decimals q_id : ℤ) (mgr : TokenInfoManager)
    → (get_by_chain_name_token_name (add_token chain name addr decimals mgr) q_chain q_name ≡ (
        if (key chain == key q_chain) && (key name == key q_name)
        then some (made_token chain name addr decimals)
        else get_by_chain_name_token_name mgr q_chain q_name))
      × (get_by_chain_name_token_addr (add_token chain name addr decimals mgr) q_chain q_addr ≡ (
          if (key chain == key q_chain) && (key addr == key q_addr)
          then some (made_token chain name addr decimals)
          else get_by_chain_name_token_addr mgr q_chain q_addr))
      × (get_by_chain_id_token_name (add_token chain name addr decimals mgr) q_id q_name
          ≡ get_by_chain_id_token_name mgr q_id q_name)
      × (get_all_tokens (add_token chain name addr decimals mgr) ≡ get_all_tokens mgr)
unfolding get_by_chain_name_token_name get_by_chain_name_token_addr get_by_chain_id_token_name
    add_token key
get-add_token chain name addr q_chain q_name q_addr decimals q_id mgr =
    let token = made_token chain name addr decimals in
    (
      lookup2-insert2 (key chain) (key q_chain) (key name) (key q_name) token
          mgr.tables.chain_name_token_names,
      lookup2-insert2 (key chain) (key q_chain) (key addr) (key q_addr) token
          mgr.tables.chain_name_token_addrs,
      refl,
      refl,
    )
