-- ===== src/Loader/CctpChain/MinValue.antt =====
-- loader/circle_cctp_chain.go: GetMinValueUnit of the chains that the manager holds.
use mathlib.Core.List.{foldl}
use utils_go.Base.{
  ◌≡◌, inl, inr, refl, sym, ap, ◌∙◌, Option, none, some, List, [], ◌∷◌, arith, All, Bool-cases,
  Option-cases, ◌==◌, eq_of_some,
}
use utils_go.Base.Int.{ℤ, pos, ◌*ℤ◌, int_eq}
use utils_go.Base.Text.{Text, text, trim_space}
use utils_go.Base.GoMap.{GoMap, lookup, insert}
use utils_go.Base.Outcome.{ok}
use utils_go.Loader.Rows.{Rows, Checked, good, skip, used_rows, Checked-cases}
use utils_go.Loader.Table.{Manager, load_table, load_table-eq-foldl}
use utils_go.Loader.CctpChain.{
  CircleCctpChain, new_circle_cctp_chain_manager, get_chain_by_chain_id, put_cctp_chain,
  get_min_value_unit, build_cctp_chain, load_all_cctp_chains, cctp_texts,
}

abbrev min_of : Checked CircleCctpChain → Text
min_of (good chain) = chain.min_value
min_of (skip msg) = msg

module _ (set_string : Text → Option ℤ) where
  abbrev IsParsed : CircleCctpChain → Type 0
  IsParsed chain = (min : ℤ) × (set_string chain.min_value ≡ some min)

  abbrev AllParsed : GoMap ℤ CircleCctpChain → Type 0
  AllParsed = All (λ entry. IsParsed entry.1)

  insert-AllParsed :
      (k : ℤ) (chain : CircleCctpChain) (m : GoMap ℤ CircleCctpChain)
      → IsParsed chain
      → AllParsed m
      → AllParsed (insert k chain m)
  unfolding insert
  insert-AllParsed k chain [] p a = (p, tt)
  insert-AllParsed k chain ((j, old) ∷ m) p a = elim (Bool-cases (j == k)) [
    | inl same ↦ rw (insert, same) (p, a.1)
    | inr other ↦ rw (insert, other) (a.0, insert-AllParsed k chain m p a.1)
  ]

  lookup-IsParsed :
      (k : ℤ) (chain : CircleCctpChain) (m : GoMap ℤ CircleCctpChain)
      → AllParsed m
      → lookup k m ≡ some chain
      → IsParsed chain
  unfolding lookup
  lookup-IsParsed k chain [] a h = ground arith
  lookup-IsParsed k chain ((j, old) ∷ m) a h = elim (Bool-cases (j == k)) [
    | inl same ↦ let e : old ≡ chain = eq_of_some old chain (rw (lookup, same) at h) in rw (← e) a.0
    | inr other ↦ lookup-IsParsed k chain m a.1 (rw (lookup, other) at h)
  ]

  build-IsParsed :
      (row : CircleCctpChain) (chain : CircleCctpChain)
      → build_cctp_chain set_string row ≡ good chain
      → IsParsed chain
  unfolding build_cctp_chain
  build-IsParsed row chain h = elim (Option-cases (set_string (trim_space row.min_value))) [
    | inl bad ↦
        let no : skip (text "scan t_cctp_support_chain min value error ") ≡ good chain =
          rw (build_cctp_chain, bad) at h in
        cc
    | inr (n, parsed) ↦
        let e : min_of (
              good (record row {
                min_value = trim_space row.min_value;
                token_messenger = trim_space row.token_messenger;
                message_transmitter = trim_space row.message_transmitter;
              }))
            ≡ chain.min_value =
          ap min_of (rw (build_cctp_chain, parsed) at h) in
        (n, ap set_string (sym e) ∙ parsed)
  ]

  used_rows-IsParsed :
      (scans : List (Option CircleCctpChain))
      → All IsParsed (used_rows (build_cctp_chain set_string) scans)
  unfolding used_rows
  used_rows-IsParsed [] = tt
  used_rows-IsParsed (none ∷ scans) = used_rows-IsParsed scans
  used_rows-IsParsed (some row ∷ scans) = elim (Checked-cases (build_cctp_chain set_string row)) [
    | inl (chain, built) ↦
        rw (used_rows, built) (build-IsParsed row chain built, used_rows-IsParsed scans)
    | inr (msg, skipped) ↦ rw (used_rows, skipped) (used_rows-IsParsed scans)
  ]

  put-All-AllParsed :
      (chains : List CircleCctpChain) (m : GoMap ℤ CircleCctpChain)
      → All IsParsed chains
      → AllParsed m
      → AllParsed (foldl (λ t chain. put_cctp_chain chain t) m chains)
  unfolding put_cctp_chain
  put-All-AllParsed [] m good_ones a = a
  put-All-AllParsed (chain ∷ chains) m good_ones a =
      put-All-AllParsed chains (insert chain.chain_id chain m) good_ones.1
        (insert-AllParsed chain.chain_id chain m good_ones.0 a)

  load-AllParsed :
      (query : Option (Rows CircleCctpChain)) (mgr : Manager (GoMap ℤ CircleCctpChain))
      → AllParsed mgr.tables
      → AllParsed (load_all_cctp_chains set_string query mgr).tables
  unfolding load_all_cctp_chains load_table
  load-AllParsed none mgr a = a
  load-AllParsed (some rows) mgr a = elim (Bool-cases rows.rows_err) [
    | inl broken ↦ rw broken a
    | inr whole ↦
        rw
          (load_table-eq-foldl cctp_texts (build_cctp_chain set_string) put_cctp_chain [] rows mgr
            whole)
          (put-All-AllParsed (used_rows (build_cctp_chain set_string) rows.scans) []
            (used_rows-IsParsed rows.scans) tt)
  ]

  loads-AllParsed :
      (queries : List (Option (Rows CircleCctpChain))) (mgr : Manager (GoMap ℤ CircleCctpChain))
      → AllParsed mgr.tables
      → AllParsed (foldl (λ m query. load_all_cctp_chains set_string query m) mgr queries).tables
  loads-AllParsed [] mgr a = a
  loads-AllParsed (query ∷ queries) mgr a =
      loads-AllParsed queries (load_all_cctp_chains set_string query mgr)
        (load-AllParsed query mgr a)

  -- After any loads, whether they succeed or not: the minimal value of a chain that
  -- GetChainByChainId returns is a number, and GetMinValueUnit returns a million times it, without a
  -- panic.
  pub get_min_value_unit_lem :
      (queries : List (Option (Rows CircleCctpChain))) (id : ℤ) (chain : CircleCctpChain)
      → get_chain_by_chain_id
          (foldl
            (λ m query. load_all_cctp_chains set_string query m)
            new_circle_cctp_chain_manager
            queries)
          id
        ≡ some chain
      → (min : ℤ) × (set_string chain.min_value ≡ some min)
        × (get_min_value_unit set_string chain ≡ ok (min *ℤ pos 1000000))
  unfolding get_chain_by_chain_id get_min_value_unit
  get_min_value_unit_lem queries id chain found =
      let (min, parsed) =
        lookup-IsParsed id chain _ (loads-AllParsed queries new_circle_cctp_chain_manager tt)
          found in
      (min, parsed, rw (get_min_value_unit, parsed) refl)
