-- ===== src/Rpc/Evm/Tokens.antt =====
-- rpc/evm.go: GetTokenInfo asks the chain once for a token.
use utils_go.Base.{◌≡◌, refl, ap, false, Bool-cases, inl, inr, ◌||◌, nat_beq, length}
use utils_go.Base.Int.{ℤ, pos, leb_ℤ}
use utils_go.Base.Text.{Text, trim_space}
use utils_go.Loader.ChainInfo.{ChainInfo}
use utils_go.Loader.Rows.{key}
use utils_go.Loader.TokenInfo.{TokenInfo}
use utils_go.Rpc.Evm.{EvmNode, EvmRpc, fetch_token, checked_token, get_token_info}
use utils_go.Rpc.TokenCache.{cached}
use utils_go.Rpc.TokenCache.Once.{IsOf, of_token, of_error, IsOf-bind, cached-twice}
use utils_go.Util.Hex.{is_hex_string_zero}
use utils_go.Util.Token.{answer}

module _ {C : Type 0} where
  checked_token-IsOf :
      (node : EvmNode) (chain : ChainInfo C) (addr symbol name : Text) (decimals supply : ℤ)
      → IsOf chain.name addr (checked_token node chain addr symbol name decimals supply)
  unfolding checked_token
  checked_token-IsOf node chain addr symbol name decimals supply =
      elim (Bool-cases (leb_ℤ decimals (pos 0) || nat_beq (length symbol) 0)) [
        | inl bad ↦ rw bad (of_error _)
        | inr good ↦ rw good (of_token _ refl refl)
      ]

  fetch_token-IsOf :
      (node : EvmNode) (chain : ChainInfo C) (addr : Text)
      → IsOf chain.name addr (fetch_token node chain addr)
  unfolding fetch_token
  fetch_token-IsOf node chain addr = search (IsOf-bind, checked_token-IsOf) depth 12

  -- Once GetTokenInfo has answered for an address without outer space that is not zero, every later
  -- GetTokenInfo of that address, in any case and with any outer space, answers the same token
  -- without the node, and changes nothing.
  pub get_token_info-twice :
      (node node' : EvmNode) (w w' : EvmRpc C) (addr addr' : Text) (token : TokenInfo)
      → trim_space w.chain_info.name ≡ w.chain_info.name
      → trim_space addr ≡ addr
      → key addr ≡ key addr'
      → is_hex_string_zero addr ≡ false
      → is_hex_string_zero addr' ≡ false
      → get_token_info node w addr ≡ (w', answer token)
      → get_token_info node' w' addr' ≡ (w', answer token)
  unfolding get_token_info
  get_token_info-twice node node' w w' addr addr' token tn ta same z z' h =
      let first =
        cached w.chain_info.name addr (fetch_token node w.chain_info addr) w.token_info_mgr in
      let run : (record w { token_info_mgr = first.0 }, first.1) ≡ (w', answer token) = rw z at h in
      let again =
        cached-twice w.chain_info.name addr addr' (fetch_token node w.chain_info addr)
          (fetch_token node' w.chain_info addr') w.token_info_mgr first.0 token tn ta same
          (fetch_token-IsOf node w.chain_info addr) (ap (λ i. (first.0, i)) (ap (λ p. p.1) run)) in
      rw (← ap (λ p. p.0) run, z') (ap (λ r. (record w { token_info_mgr = r.0 }, r.1)) again)
