-- ===== src/Rpc/TokenCache/Once.antt =====
-- rpc/: a token that a client has fetched is answered from its TokenInfoManager afterwards.
use utils_go.Base.{◌≡◌, refl, ap, sym, Option, ◌∙◌, none, some, beq_refl}
use utils_go.Base.Text.{Text, text_eq, trim_space, to_lower}
use utils_go.Base.Nested.{lookup2-insert2}
use utils_go.Loader.Rows.{key}
use utils_go.Loader.TokenInfo.{
  TokenInfo, TokenInfoManager, get_by_chain_name_token_addr, add_token_info,
}
use utils_go.Util.Token.{Answer, answer, refused, ◌>>=◌}
use utils_go.Rpc.TokenCache.{known_or_fetched, cached}

-- AddTokenInfo makes the token the answer for its chain and its address, where these have no outer space.
get-add_token_info :
    (token : TokenInfo) (mgr : TokenInfoManager) (chain addr : Text)
    → key chain ≡ to_lower token.chain_name
    → key addr ≡ to_lower token.token_address
    → get_by_chain_name_token_addr (add_token_info token mgr) chain addr ≡ some token
unfolding get_by_chain_name_token_addr add_token_info
get-add_token_info token mgr chain addr ec ea =
    lookup2-insert2 (to_lower token.chain_name) (key chain) (to_lower token.token_address)
      (key addr) token mgr.tables.chain_name_token_addrs
    ∙ rw (ec, ea, beq_refl (to_lower token.chain_name), beq_refl (to_lower token.token_address))
        refl

-- The token that a fetch gives has the name of the chain and the address that was asked for.
pub data IsOf (chain addr : Text) : Answer TokenInfo → Type 0 where
  of_token :
      (token : TokenInfo)
      → token.chain_name ≡ chain
      → token.token_address ≡ addr
      → IsOf chain addr (answer token)
  of_error : (msg : Text) → IsOf chain addr (refused msg)

pub IsOf-bind :
    {A : Type 0} {chain addr : Text} (m : Answer A) (f : A → Answer TokenInfo)
    → ((a : A) → IsOf chain addr (f a))
    → IsOf chain addr (m >>= f)
IsOf-bind (answer a) f h = h a
IsOf-bind (refused msg) f h = of_error msg

names_of :
    {chain addr : Text} {token : TokenInfo}
    → IsOf chain addr (answer token)
    → (token.chain_name ≡ chain) × (token.token_address ≡ addr)
names_of (of_token token c a) = (c, a)

eq_of_answer : (a b : TokenInfo) → answer a ≡ answer b → a ≡ b
eq_of_answer a b h = cc

found_afterwards :
    (chain addr : Text) (mgr mgr' : TokenInfoManager) (token : TokenInfo) (known : Option TokenInfo)
    (fetched : Answer TokenInfo)
    → trim_space chain ≡ chain
    → trim_space addr ≡ addr
    → get_by_chain_name_token_addr mgr chain addr ≡ known
    → IsOf chain addr fetched
    → known_or_fetched known fetched mgr ≡ (mgr', answer token)
    → get_by_chain_name_token_addr mgr' chain addr ≡ some token
unfolding known_or_fetched
found_afterwards chain addr mgr mgr' token (some t) fetched tc ta found is_of h =
    ap (λ m. get_by_chain_name_token_addr m chain addr) (sym (ap (λ p. p.0) h))
    ∙ found
    ∙ ap (λ t. some t) (eq_of_answer t token (ap (λ p. p.1) h))
found_afterwards chain addr mgr mgr' token none (answer t) tc ta found is_of h =
    ap (λ m. get_by_chain_name_token_addr m chain addr) (sym (ap (λ p. p.0) h))
    ∙ get-add_token_info t mgr chain addr (unfold key in ap to_lower (tc ∙ sym (names_of is_of).0))
        (unfold key in ap to_lower (ta ∙ sym (names_of is_of).1))
    ∙ ap (λ t. some t) (eq_of_answer t token (ap (λ p. p.1) h))
found_afterwards chain addr mgr mgr' token none (refused msg) tc ta found is_of h =
    absurd (refused-ne-answer (ap (λ p. p.1) h))
  where
    refused-ne-answer : refused msg ≡ answer token → ⊥
    refused-ne-answer e = cc

-- After an answer, every later fetch is not looked at: the first token is the answer for each
-- address with the same key.
pub cached-twice :
    (chain addr addr' : Text) (fetched fetched' : Answer TokenInfo) (mgr mgr' : TokenInfoManager)
    (token : TokenInfo)
    → trim_space chain ≡ chain
    → trim_space addr ≡ addr
    → key addr ≡ key addr'
    → IsOf chain addr fetched
    → cached chain addr fetched mgr ≡ (mgr', answer token)
    → cached chain addr' fetched' mgr' ≡ (mgr', answer token)
unfolding cached
cached-twice chain addr addr' fetched fetched' mgr mgr' token tc ta same is_of h =
    let found = found_afterwards chain addr mgr mgr' token _ fetched tc ta refl is_of h in
    let found' : get_by_chain_name_token_addr mgr' chain addr' ≡ some token =
      unfold get_by_chain_name_token_addr in rw (← same) found in
    ap (λ o. known_or_fetched o fetched' mgr') found'
