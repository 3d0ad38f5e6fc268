-- ===== src/Loader/Table.antt =====
-- The load that the managers of one table in loader/ share: nothing changes where the query fails or
-- rows.Err says so, and each row that does not scan is reported and passed over.
use mathlib.Core.List.{foldl}
use utils_go.Base.{◌≡◌, false, Option, none, some, List, [], ◌∷◌, ◌++◌, if◌then◌else◌}
use utils_go.Base.Text.{Text}
use utils_go.Loader.Rows.{Rows, Checked, used_rows, load_loop, load_loop-eq-foldl}

-- The maps of a manager, and the alerts that it has sent.
pub record Manager (S : Type 0) : Type 0 where
  pub tables : S
  pub alerts : List Text

-- The texts of the alerts for the query, for Scan and for rows.Err.
pub record LoadTexts : Type 0 where
  pub on_query : Text
  pub on_scan : Text
  pub on_rows : Text

module _ {R A S : Type 0} (texts : LoadTexts) (build : R → Checked A) (put : A → S → S)
    (empty : S) where
  unfoldable pub load_table : Option (Rows R) → Manager S → Manager S
  unfolding load_loop
  load_table none mgr = record mgr { alerts = mgr.alerts ++ texts.on_query ∷ [] }
  load_table (some rows) mgr =
      let (tables, alerts) = load_loop build put texts.on_scan rows.scans empty mgr.alerts in
      if rows.rows_err
      then record mgr { alerts = alerts ++ texts.on_rows ∷ [] }
      else record { tables = tables; alerts = alerts }

  pub load_table-eq-foldl :
      (rows : Rows R) (mgr : Manager S)
      → rows.rows_err ≡ false
      → (load_table (some rows) mgr).tables
        ≡ foldl (λ s a. put a s) empty (used_rows build rows.scans)
  unfolding load_table
  load_table-eq-foldl rows mgr whole =
      rw (load_table, whole)
        (load_loop-eq-foldl build put texts.on_scan rows.scans empty mgr.alerts)
