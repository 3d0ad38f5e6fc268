-- ===== src/Loader/TokenInfo/Stored.antt =====
-- loader/token_info.go: the names under which the tokens of scanned rows are stored.
use mathlib.Core.List.{foldl}
use utils_go.Base.{
  ◌≡◌, refl, Bool, ◌∙◌, none, some, List, [], ◌∷◌, if◌then◌else◌, ◌==◌, ◌&&◌, arith, inl, inr,
  Bool-cases,
}
use utils_go.Base.Int.{pos, ltb_ℤ, int_eq}
use utils_go.Base.Text.{Text, text_eq, to_lower}
use utils_go.Base.Nested.{lookup2, lookup2-insert2}
use utils_go.Base.Find.{find_last}
use utils_go.Loader.TokenInfo.{
  TokenInfo, TokenTables, store_token, index_by_chain_name, index_by_chain_id,
}

-- The chain name and the token name of a token, in lower case.
abbrev pub is_named : Text → Text → TokenInfo → Bool
is_named c n token = to_lower token.chain_name == c && to_lower token.token_name == n

names-store_token :
    (token : TokenInfo) (t : TokenTables) (c n : Text)
    → lookup2 c n (store_token token t).chain_name_token_names
      ≡ (if is_named c n token then some token else lookup2 c n t.chain_name_token_names)
unfolding store_token index_by_chain_name index_by_chain_id
names-store_token token t c n = elim (Bool-cases (ltb_ℤ (pos 0) token.chain_id)) [
  | inl known ↦ rw known (
      lookup2-insert2 (to_lower token.chain_name) c (to_lower token.token_name) n token
        t.chain_name_token_names)
  | inr unknown ↦ rw unknown (
      lookup2-insert2 (to_lower token.chain_name) c (to_lower token.token_name) n token
        t.chain_name_token_names)
]

-- The last token that is named so, and else what was there.
pub names-store_tokens :
    (tokens : List TokenInfo) (t : TokenTables) (c n : Text)
    → lookup2 c n (foldl (λ t x. store_token x t) t tokens).chain_name_token_names
      ≡ elim (find_last (is_named c n) tokens) [
        | some x ↦ some x
        | none ↦ lookup2 c n t.chain_name_token_names
      ]
unfolding find_last
names-store_tokens [] t c n = refl
names-store_tokens (x ∷ tokens) t c n =
    names-store_tokens tokens (store_token x t) c n ∙ ground (arith, names-store_token x t c n)
