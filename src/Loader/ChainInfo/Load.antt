-- ===== src/Loader/ChainInfo/Load.antt =====
-- loader/chain_info.go: the maps of a ChainInfoManager answer as a search of its chains does.
use utils_go.Base.{
  ◌≡◌, ◌⊎◌, refl, sym, ◌∙◌, Option, none, some, List, [], ◌∷◌, ◌++◌, ◌==◌, Comparable, inl, inr,
  Bool-cases,
}
use utils_go.Base.Int.{ℤ, int_eq}
use utils_go.Base.Text.{Text, text_eq, to_lower}
use utils_go.Base.GoMap.{GoMap, lookup, insert, lookup-insert}
use utils_go.Base.Find.{find_last, find_last-snoc}
use utils_go.Loader.Rows.{Rows}
use utils_go.Loader.ChainInfo.{
  ChainRow, ChainInfo, Clients, ChainTables, ChainInfoManager, Opened, opened, failed, store_chain,
  load_chains, load_all_chains, trim_row, open_client, no_chains,
}

-- Each map answers for the last chain of the list that has the key.
pub record IsCoherent {C : Type 0} (t : ChainTables C) : Type 0 where
  pub by_id :
      (k : ℤ) → lookup k t.id_chains ≡ find_last (λ (c : ChainInfo C). c.id == k) t.all_chains
  pub by_chain_id :
      (k : Text)
      → lookup k t.chain_id_chains
        ≡ find_last (λ (c : ChainInfo C). to_lower c.chain_id == k) t.all_chains
  pub by_name :
      (k : Text)
      → lookup k t.name_chains ≡ find_last (λ (c : ChainInfo C). to_lower c.name == k) t.all_chains
  pub by_netcode :
      (k : ℤ)
      → lookup k t.netcode_chains
        ≡ find_last (λ (c : ChainInfo C). c.network_code == k) t.all_chains

Opened-cases :
    {C : Type 0} (o : Opened C)
    → ((client : Option C) × (ton : Option C) × (o ≡ opened client ton))
      ⊎ ((msg : Text) × (o ≡ failed msg))
Opened-cases (opened client ton) = inl (client, ton, refl)
Opened-cases (failed msg) = inr (msg, refl)

pub no_chains-IsCoherent : {C : Type 0} → IsCoherent (no_chains {C = C})
unfolding lookup find_last
no_chains-IsCoherent = record {
  by_id = λ k. refl;
  by_chain_id = λ k. refl;
  by_name = λ k. refl;
  by_netcode = λ k. refl;
}

module _ {C : Type 0} where
  -- One more chain, in one of the maps.
  lookup-snoc :
      {K : Type 0} ⦃e : Comparable K⦄ (key_of : ChainInfo C → K) (chain : ChainInfo C)
      (m : GoMap K (ChainInfo C)) (cs : List (ChainInfo C)) (k : K)
      → lookup k m ≡ find_last (λ c. key_of c == k) cs
      → lookup k (insert (key_of chain) chain m) ≡ find_last (λ c. key_of c == k) (cs ++ chain ∷ [])
  lookup-snoc key_of chain m cs k h =
      lookup-insert (key_of chain) k chain m
      ∙ (rw h (sym (find_last-snoc (λ c. key_of c == k) chain cs)))

  store_chain-IsCoherent :
      (chain : ChainInfo C) (t : ChainTables C) → IsCoherent t → IsCoherent (store_chain chain t)
  unfolding store_chain
  store_chain-IsCoherent chain t h = record {
    by_id = λ k. lookup-snoc (λ c. c.id) chain t.id_chains t.all_chains k (h.by_id k);
    by_chain_id = λ k.
        lookup-snoc (λ c. to_lower c.chain_id) chain t.chain_id_chains t.all_chains k
          (h.by_chain_id k);
    by_name =
        λ k. lookup-snoc (λ c. to_lower c.name) chain t.name_chains t.all_chains k (h.by_name k);
    by_netcode = λ k.
        lookup-snoc (λ c. c.network_code) chain t.netcode_chains t.all_chains k (h.by_netcode k);
  }

  load_chains-IsCoherent :
      (lib : Clients C) (rs : List (Option ChainRow)) (mgr : ChainInfoManager C)
      → IsCoherent mgr.tables
      → IsCoherent (load_chains lib rs mgr).tables
  unfolding load_chains
  load_chains-IsCoherent lib [] mgr h = h
  load_chains-IsCoherent lib (none ∷ rs) mgr h = load_chains-IsCoherent lib rs _ h
  load_chains-IsCoherent lib (some r ∷ rs) mgr h =
      elim (Opened-cases (open_client lib mgr.ton (trim_row r))) [
        | inl (client, ton, e) ↦
            rw (e, load_chains)
              (load_chains-IsCoherent lib rs _ (store_chain-IsCoherent _ mgr.tables h))
        | inr (msg, e) ↦ rw (e, load_chains) (load_chains-IsCoherent lib rs _ h)
      ]

  -- LoadAllChains keeps the four maps in step with the list of chains, whether its query and rows
  -- succeed or not: a map answers for the last chain of the list that has the key.
  pub load_all_chains-IsCoherent :
      (lib : Clients C) (query : Option (Rows ChainRow)) (mgr : ChainInfoManager C)
      → IsCoherent mgr.tables
      → IsCoherent (load_all_chains lib query mgr).tables
  unfolding load_all_chains
  load_all_chains-IsCoherent lib none mgr h = h
  load_all_chains-IsCoherent lib (some rows) mgr h = elim (Bool-cases rows.rows_err) [
    | inl broken ↦ rw (broken, load_all_chains) h
    | inr fine ↦
        rw (fine, load_all_chains)
          (load_chains-IsCoherent lib rows.scans (record mgr { tables = no_chains })
            no_chains-IsCoherent)
  ]
