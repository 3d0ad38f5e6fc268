-- ===== src/Rpc/Solana/Tokens.antt =====
-- rpc/solana.go: GetTokenInfo asks the chain once for a token, whose address it keeps in lower case.
use utils_go.Base.{◌≡◌, ap, false}
use utils_go.Base.Text.{Text, trim_space}
use utils_go.Loader.ChainInfo.{ChainInfo}
use utils_go.Loader.Rows.{key}
use utils_go.Loader.TokenInfo.{TokenInfo}
use utils_go.Rpc.Solana.{
  SolanaNode, SolanaRpc, Reply, reply, not_found, failed, is_sol, to_answer, fetch_token,
  get_token_info, ◌>>=◌,
}
use utils_go.Rpc.TokenCache.{cached}
use utils_go.Rpc.TokenCache.Once.{IsOf, of_token, of_error, cached-twice}
use utils_go.Util.Token.{answer}

reply-bind-IsOf :
    {A : Type 0} {chain addr : Text} (m : Reply A) (f : A → Reply TokenInfo)
    → ((a : A) → IsOf chain addr (to_answer (f a)))
    → IsOf chain addr (to_answer (m >>= f))
reply-bind-IsOf (reply a) f h = h a
reply-bind-IsOf not_found f h = of_error _
reply-bind-IsOf (failed msg) f h = of_error msg

module _ {C : Type 0} where
  fetch_token-IsOf :
      (node : SolanaNode) (chain : ChainInfo C) (addr : Text)
      → IsOf chain.name addr (to_answer (fetch_token node chain addr))
  unfolding fetch_token
  fetch_token-IsOf node chain addr = search (reply-bind-IsOf, of_token) depth 12

  -- On a chain whose name has no outer space: once GetTokenInfo has answered for an address without
  -- outer space that is not that of SOL, a GetTokenInfo that follows, of an address that is the same but
  -- for case and outer space and is not that of SOL either, answers the same token, whatever the chain
  -- would say, and changes nothing.
  pub get_token_info-lower :
      (node node' : SolanaNode) (w w' : SolanaRpc C) (addr addr' : Text) (token : TokenInfo)
      → trim_space w.chain_info.name ≡ w.chain_info.name
      → trim_space addr ≡ addr
      → key addr ≡ key addr'
      → is_sol addr ≡ false
      → is_sol addr' ≡ false
      → get_token_info node w addr ≡ (w', answer token)
      → get_token_info node' w' addr' ≡ (w', answer token)
  unfolding get_token_info
  get_token_info-lower node node' w w' addr addr' token tn ta same z z' h =
      let first =
        cached w.chain_info.name addr (to_answer (fetch_token node w.chain_info addr))
          w.token_info_mgr in
      let run : (record w { token_info_mgr = first.0 }, first.1) ≡ (w', answer token) = rw z at h in
      let again =
        cached-twice w.chain_info.name addr addr' (to_answer (fetch_token node w.chain_info addr))
          (to_answer (fetch_token node' w.chain_info addr')) w.token_info_mgr first.0 token tn ta
          same (fetch_token-IsOf node w.chain_info addr)
          (ap (λ i. (first.0, i)) (ap (λ p. p.1) run)) in
      rw (← ap (λ p. p.0) run, z') (ap (λ r. (record w { token_info_mgr = r.0 }, r.1)) again)
