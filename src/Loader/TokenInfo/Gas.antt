-- ===== src/Loader/TokenInfo/Gas.antt =====
-- loader/token_info.go: the gas tokens that LoadAllToken adds to the tokens of the table.

use utils_go.Base.{
  ◌≡◌, ◌⊎◌, ◌≢◌, refl, ap, true, sym, ◌∙◌, none, some, false, List, [], ◌∷◌, map, if◌then◌else◌,
  ◌==◌, ◌&&◌, arith, Option-cases, inl, inr, Bool-cases, In, beq_refl,
}
use utils_go.Base.Int.{ℤ, int_eq}
use utils_go.Base.Text.{Text, text, text_eq, to_lower}
use utils_go.Base.GoMap.{GoMap, lookup, lookup-insert}
use utils_go.Base.Nested.{inner_map, lookup2, lookup2-insert2, lookup2-nil}
use utils_go.Base.Find.{find_last}
use utils_go.Loader.Rows.{key, Rows, load_loop, load_loop-eq-foldl, used_rows}
use utils_go.Loader.ChainInfo.{
  ChainInfo, ChainInfoManager, get_chain_info_by_id, get_chain_info_auto_ids,
}
use utils_go.Loader.TokenInfo.Stored.{is_named, names-store_tokens}
use utils_go.Loader.TokenInfo.{
  TokenInfo, TokenTables, TokenInfoManager, make_inner, add_gas_token, add_gas_tokens, gas_token,
  load_all_token, TokenRow, get_by_chain_name_token_name, build_token, store_token, no_tokens,
}

lookup2-make_inner :
    (k c n : Text) (m : GoMap Text (GoMap Text TokenInfo))
    → lookup2 c n (make_inner k m) ≡ lookup2 c n m
unfolding lookup2 lookup
lookup2-make_inner k c n m =
    ground (arith, lookup-insert k c (inner_map (lookup k m)) m, text_eq.equal_iff k c)

names-add_gas_token :
    (token : TokenInfo) (t : TokenTables) (c n : Text)
    → lookup2 c n (add_gas_token token t).chain_name_token_names
      ≡ elim (lookup2 c n t.chain_name_token_names) [
        | some found ↦ some found
        | none ↦
            if (to_lower token.chain_name == c) && (to_lower token.token_name == n)
            then some token
            else none
      ]
unfolding add_gas_token
names-add_gas_token token t c n =
    let chain = to_lower token.chain_name in
    let name = to_lower token.token_name in
    let names = make_inner chain t.chain_name_token_names in
    ground (
      arith,
      lookup2-make_inner chain chain name t.chain_name_token_names,
      lookup2-make_inner chain c n t.chain_name_token_names,
      lookup2-insert2 chain c name n token names,
      text_eq.equal_iff chain c,
      text_eq.equal_iff name n,
    )

In-ids :
    {A : Type 0} (id : ℤ) (a : A) (m : GoMap ℤ A)
    → lookup id m ≡ some a
    → In id (map (λ (j, x). j) m)
unfolding lookup
In-ids id a [] h = cc
In-ids id a ((j, x) ∷ m) h = elim (Bool-cases (j == id)) [
  | inl same ↦ inl ((int_eq.equal_iff j id).0 same)
  | inr other ↦ inr (In-ids id a m (ground arith))
]

module _ {C : Type 0} (chains : ChainInfoManager C) where
  add_gas_tokens-keeps :
      (ids : List ℤ) (t : TokenTables) (c n : Text) (x : TokenInfo)
      → lookup2 c n t.chain_name_token_names ≡ some x
      → lookup2 c n (add_gas_tokens chains ids t).chain_name_token_names ≡ some x
  unfolding add_gas_tokens
  add_gas_tokens-keeps [] t c n x h = h
  add_gas_tokens-keeps (id ∷ ids) t c n x h = elim (Option-cases (get_chain_info_by_id chains id)) [
    | inl gone ↦ rw (gone, add_gas_tokens) (add_gas_tokens-keeps ids t c n x h)
    | inr (chain, here) ↦
        rw (here, add_gas_tokens)
          (add_gas_tokens-keeps ids (add_gas_token (gas_token chain) t) c n x
            (names-add_gas_token (gas_token chain) t c n ∙ (rw h refl)))
  ]

  -- The gas token of a known chain whose name and gas token are named as those of this one, up to case.
  abbrev pub IsGasToken : ChainInfo C → TokenInfo → Type 0
  IsGasToken chain x =
      (id : ℤ) × (other : ChainInfo C) × (get_chain_info_by_id chains id ≡ some other)
      × (to_lower other.name ≡ to_lower chain.name)
      × (to_lower other.gas_token_name ≡ to_lower chain.gas_token_name)
      × (x.chain_name ≡ other.name)
      × (x.token_name ≡ other.gas_token_name)
      × (x.token_address ≡ other.gas_token_address)
      × (x.decimals ≡ other.gas_token_decimal)
      × (x.icon ≡ other.gas_token_icon)

  gas_token-IsGasToken :
      (chain other : ChainInfo C) (id : ℤ)
      → get_chain_info_by_id chains id ≡ some other
      → is_named (to_lower chain.name) (to_lower chain.gas_token_name) (gas_token other) ≡ true
      → IsGasToken chain (gas_token other)
  unfolding gas_token
  gas_token-IsGasToken chain other id found named =
      let c = to_lower chain.name in
      let n = to_lower chain.gas_token_name in
      let same_chain : (to_lower other.name == c) ≡ true = ground arith in
      let same_name : (to_lower other.gas_token_name == n) ≡ true = ground arith in
      (
        id,
        other,
        found,
        (text_eq.equal_iff (to_lower other.name) c).0 same_chain,
        (text_eq.equal_iff (to_lower other.gas_token_name) n).0 same_name,
        refl,
        refl,
        refl,
        refl,
        refl,
      )

  own_named :
      (chain : ChainInfo C)
      → is_named (to_lower chain.name) (to_lower chain.gas_token_name) (gas_token chain) ≡ true
  unfolding gas_token
  own_named chain =
      rw (beq_refl (to_lower chain.name), beq_refl (to_lower chain.gas_token_name)) refl

  known_id :
      (j id : ℤ) (chain : ChainInfo C)
      → get_chain_info_by_id chains j ≡ none
      → get_chain_info_by_id chains id ≡ some chain
      → j ≢ id
  known_id j id chain gone found same = cc

  named_id :
      (j id : ℤ) (chain other : ChainInfo C)
      → get_chain_info_by_id chains j ≡ some other
      → get_chain_info_by_id chains id ≡ some chain
      → is_named (to_lower chain.name) (to_lower chain.gas_token_name) (gas_token other) ≡ false
      → j ≢ id
  named_id j id chain other here found else_named same =
      let same_chain : other ≡ chain = cc in
      let f = λ (x : ChainInfo C).
        is_named (to_lower chain.name) (to_lower chain.gas_token_name) (gas_token x) in
      let clash : true ≡ false = sym (ap f same_chain ∙ own_named chain) ∙ else_named in cc

  In-rest : (j id : ℤ) (ids : List ℤ) → In id (j ∷ ids) → j ≢ id → In id ids
  In-rest j id ids (inl same) ne = absurd (ne same)
  In-rest j id ids (inr later) ne = later

  add_gas_tokens-adds :
      (ids : List ℤ) (t : TokenTables) (id : ℤ) (chain : ChainInfo C)
      → In id ids
      → get_chain_info_by_id chains id ≡ some chain
      → lookup2 (to_lower chain.name) (to_lower chain.gas_token_name) t.chain_name_token_names
        ≡ none
      → (x : TokenInfo) × (lookup2
            (to_lower chain.name)
            (to_lower chain.gas_token_name)
            (add_gas_tokens chains ids t).chain_name_token_names
          ≡ some x)
        × IsGasToken chain x
  unfolding add_gas_tokens
  add_gas_tokens-adds [] t id chain i found missing = elim i [ ]
  add_gas_tokens-adds (j ∷ ids) t id chain i found missing =
      let c = to_lower chain.name in
      let n = to_lower chain.gas_token_name in
      elim (Option-cases (get_chain_info_by_id chains j)) [
        | inl gone ↦
            let later : In id ids = In-rest j id ids i (known_id j id chain gone found) in
            rw (gone, add_gas_tokens) (add_gas_tokens-adds ids t id chain later found missing)
        | inr (other, here) ↦ elim (Bool-cases (is_named c n (gas_token other))) [
          | inl named ↦ (
            gas_token other,
            rw (here, add_gas_tokens)
                (add_gas_tokens-keeps ids (add_gas_token (gas_token other) t) c n (gas_token other)
                  (names-add_gas_token (gas_token other) t c n ∙ (rw (missing, named) refl))),
            gas_token-IsGasToken chain other j here named,
          )
          | inr else_named ↦
              let later : In id ids =
                In-rest j id ids i (named_id j id chain other here found else_named) in
              rw (here, add_gas_tokens)
                (add_gas_tokens-adds ids (add_gas_token (gas_token other) t) id chain later found
                  (names-add_gas_token (gas_token other) t c n ∙ (rw (missing, else_named) refl)))
        ]
      ]

  -- After a load whose query and rows succeed, for a chain that the chain manager knows by its id: under
  -- its name and the name of its gas token, in any case and with any outer space, there is the token of
  -- the last scanned row with these names, and where there is no such row, a gas token: the token that
  -- the chain manager's entry of this chain, or of one with the same two names up to case, describes by
  -- its names, address, decimals and icon.
  pub load_all_token-IsGasToken :
      (rows : Rows TokenRow) (mgr : TokenInfoManager) (id : ℤ) (chain : ChainInfo C)
      (q_chain q_name : Text)
      → rows.rows_err ≡ false
      → get_chain_info_by_id chains id ≡ some chain
      → key q_chain ≡ to_lower chain.name
      → key q_name ≡ to_lower chain.gas_token_name
      → (x : TokenInfo) × (get_by_chain_name_token_name
            (load_all_token chains (some rows) mgr)
            q_chain
            q_name
          ≡ some x)
        × ((find_last
                (is_named (to_lower chain.name) (to_lower chain.gas_token_name))
                (used_rows build_token rows.scans)
              ≡ some x)
            ⊎ ((find_last
                    (is_named (to_lower chain.name) (to_lower chain.gas_token_name))
                    (used_rows build_token rows.scans)
                  ≡ none)
                × IsGasToken chain x))
  unfolding load_all_token get_by_chain_name_token_name get_chain_info_by_id get_chain_info_auto_ids
  load_all_token-IsGasToken rows mgr id chain q_chain q_name fine found ec en =
      let c = to_lower chain.name in
      let n = to_lower chain.gas_token_name in
      let tokens = used_rows build_token rows.scans in
      let t =
        (load_loop build_token store_token (text "scan t_token_info row error") rows.scans no_tokens
          mgr.alerts).0 in
      let ids = get_chain_info_auto_ids chains in
      let known = In-ids id chain chains.tables.id_chains found in
      let scanned =
        ap (λ t. lookup2 c n t.chain_name_token_names)
          (load_loop-eq-foldl build_token store_token _ rows.scans no_tokens mgr.alerts)
        ∙ names-store_tokens tokens no_tokens c n in
      elim (Option-cases (find_last (is_named c n) tokens)) [
        | inl missing ↦
            let (x, added, gas) =
              add_gas_tokens-adds ids t id chain known found
                (scanned ∙ (rw missing (lookup2-nil c n))) in
            (x, rw (fine, ec, en) added, inr (missing, gas))
        | inr (x, present) ↦ (
          x,
          rw (fine, ec, en) (add_gas_tokens-keeps ids t c n x (scanned ∙ (rw present refl))),
          inl present,
        )
      ]
