-- ===== src/Loader/Dtc/Load.antt =====
-- loader/dtc.go: what GetDtc finds after LoadAllDtc.

use utils_go.Base.{◌≡◌, refl, ap, ◌∙◌, Option, none, some, Bool, true, false, [], ◌==◌, ◌&&◌}
use utils_go.Base.Text.{Text, text_eq, to_lower}
use utils_go.Base.Nested.{lookup3}
use utils_go.Base.Find.{find_last}
use utils_go.Loader.Lanes.{lookup3-foldl_nil}
use utils_go.Loader.Rows.{key, Float, Rows, used_rows, load_loop-eq-foldl}
use utils_go.Loader.Dtc.{Dtc, DtcRow, DtcManager, get_dtc, build_dtc, store_dtc, load_all_dtc}

-- The lane of a Dtc, in lower case.
abbrev pub is_lane : {F : Type 0} → Text → Text → Text → Dtc F → Bool
is_lane token from to dtc =
    to_lower dtc.token_name == token
    && (to_lower dtc.from_chain_name == from && to_lower dtc.to_chain_name == to)

-- After a load whose query and rows succeed, GetDtc finds the last row of the lane among those whose
-- eight numbers parse, whatever was loaded before. Lanes are compared without case and outer space.
pub get_dtc-load_all_dtc :
    (fl : Float) (mgr : DtcManager fl.F) (rows : Rows DtcRow) (token from to : Text)
    → rows.rows_err ≡ false
    → get_dtc (load_all_dtc fl (some rows) mgr) token from to
      ≡ find_last (is_lane (key token) (key from) (key to)) (used_rows (build_dtc fl) rows.scans)
unfolding get_dtc load_all_dtc
get_dtc-load_all_dtc fl mgr rows token from to fine = rw fine (
    ap (lookup3 (key token) (key from) (key to))
      (load_loop-eq-foldl (build_dtc fl) (store_dtc fl) _ rows.scans [] mgr.alerts)
    ∙ lookup3-foldl_nil (λ (d : Dtc fl.F). to_lower d.token_name) (λ d. to_lower d.from_chain_name)
        (λ d. to_lower d.to_chain_name) (key token) (key from) (key to)
        (used_rows (build_dtc fl) rows.scans))

-- A load that fails keeps the table.
pub load_all_dtc_failed :
    (fl : Float) (mgr : DtcManager fl.F) (query : Option (Rows DtcRow))
    → ((rows : Rows DtcRow) → query ≡ some rows → rows.rows_err ≡ true)
    → ((load_all_dtc fl query mgr).token_from_to_dtcs ≡ mgr.token_from_to_dtcs)
unfolding load_all_dtc
load_all_dtc_failed fl mgr none h = refl
load_all_dtc_failed fl mgr (some rows) h = rw (h rows refl, load_all_dtc) refl
