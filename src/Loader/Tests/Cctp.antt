-- ===== src/Loader/Tests/Cctp.antt =====
-- loader/: the theorem on the minimal values at concrete chains, and runs of the managers of one table.
use utils_go.Base.{◌≡◌, refl, Option, none, some, true, false, [], ◌∷◌, if◌then◌else◌, ◌==◌}
use utils_go.Base.Int.{ℤ, pos, ◌*ℤ◌}
use utils_go.Base.Text.{Text, text, text_beq, text_eq, to_lower}
use utils_go.Base.GoMap.{lookup, insert}
use utils_go.Base.Outcome.{ok}
use utils_go.Loader.Rows.{Rows}
use utils_go.Loader.CctpChain.{
  CircleCctpChain, new_circle_cctp_chain_manager, get_chain_by_chain_id, get_min_value_unit,
  load_all_cctp_chains, get_chain_ids,
}
use utils_go.Loader.CctpChain.MinValue.{get_min_value_unit_lem}
use utils_go.Loader.Account.{new_account_manager, load_all_accounts, get_addresses}
use utils_go.Loader.MakerAddress.{
  new_maker_address_manager, load_all_maker_addresses, get_group_id_by_backend_and_address,
}
use utils_go.Loader.PopularList.{
  new_popular_list_manager, load_all_popular_list, get_popular_weight,
}
use utils_go.Loader.Blacklist.{new_blacklist_address_manager, load_all_blacklists, is_blacklisted}

abbrev set_string : Text → Option ℤ
set_string s = if s == text "5" then some (pos 5) else none

abbrev cctp_chain : ℤ → Text → CircleCctpChain
cctp_chain id min = record {
  chain_id = id;
  min_value = min;
  domain = pos 0;
  token_messenger = text "0xa";
  message_transmitter = text "0xb";
  token_messenger_v2 = [];
  message_transmitter_v2 = [];
}

abbrev cctp_query : Option (Rows CircleCctpChain)
cctp_query = some (record {
  scans = some (cctp_chain (pos 1) (text " 5")) ∷ some (cctp_chain (pos 2) (text "x")) ∷ [];
  rows_err = false;
})

get_min_value_unit_lem_example :
    (min : ℤ) × (set_string (text "5") ≡ some min)
    × (get_min_value_unit set_string (cctp_chain (pos 1) (text "5")) ≡ ok (min *ℤ pos 1000000))
unfolding load_all_cctp_chains lookup insert get_chain_by_chain_id text_beq
get_min_value_unit_lem_example =
    get_min_value_unit_lem set_string (cctp_query ∷ none ∷ []) (pos 1)
      (cctp_chain (pos 1) (text "5")) refl

only_the_number :
    get_chain_ids (load_all_cctp_chains set_string cctp_query new_circle_cctp_chain_manager)
    ≡ pos 1 ∷ []
unfolding load_all_cctp_chains get_chain_ids text_beq
only_the_number = refl

accounts_run :
    get_addresses
      (load_all_accounts
        (some (record {
          scans =
              some (record { id = pos 1; chain_info_id = pos 10; address = text " 0xAB" })
              ∷ none
              ∷ some (record { id = pos 2; chain_info_id = pos 10; address = text "0xab" })
              ∷ [];
          rows_err = false;
        }))
        new_account_manager)
      (pos 10)
    ≡ text "0xab" ∷ []
unfolding load_all_accounts get_addresses text_beq
accounts_run = refl

-- An address of a group that is not there is found all the same.
makers_run :
    get_group_id_by_backend_and_address
      (load_all_maker_addresses
        (some (record { scans = []; rows_err = false }))
        (some (record {
          scans =
              some (record { id = pos 1; group_id = pos 9; backend = pos 2; address = text "0xa" })
              ∷ [];
          rows_err = false;
        }))
        (some (record { scans = []; rows_err = false }))
        new_maker_address_manager)
      (pos 2)
      (text "0xa")
    ≡ pos 9
unfolding load_all_maker_addresses get_group_id_by_backend_and_address text_beq
makers_run = refl

weights_run :
    get_popular_weight
      (load_all_popular_list
        (some (record {
          scans =
              some (record { chain_name = text "Base "; weight = pos 3; tag = text "USDC" })
              ∷ some (record { chain_name = text "base"; weight = pos 4; tag = text "ETH" })
              ∷ [];
          rows_err = false;
        }))
        new_popular_list_manager)
      []
      (text "BASE")
    ≡ ((text "USDC", pos 3) ∷ (text "ETH", pos 4) ∷ [], true)
unfolding load_all_popular_list get_popular_weight text_beq to_lower
weights_run = refl

blacklist_run :
    is_blacklisted
      (load_all_blacklists
        (some (record {
          scans =
              some (record {
                id = pos 1;
                address = text "0xAb";
                risk_desc = [];
                status = pos 1;
                created_at = pos 0;
                updated_at = pos 0;
              })
              ∷ [];
          rows_err = false;
        }))
        new_blacklist_address_manager)
      (text " 0xaB ")
    ≡ true
unfolding load_all_blacklists is_blacklisted text_beq
blacklist_run = refl
