-- ===== src/Alert/Tests.antt =====
-- alert/common.go: the theorem at concrete calls.
use utils_go.Base.{none, List, [], ◌∷◌, arith}
use utils_go.Base.Int.{pos}
use utils_go.Base.Text.{text}
use utils_go.Alert.{LazyCall, new_common_alerter, alert_text_lazy, sent}
use utils_go.Alert.Spacing.{IsSpaced, sent-IsSpaced}

-- Calls for one group, of which the third sends its alert.
abbrev calls : List LazyCall
calls =
    alert_text_lazy (text "down") none (pos 100)
    ∷ alert_text_lazy (text "down") none (pos 130)
    ∷ alert_text_lazy (text "down") none (pos 170)
    ∷ alert_text_lazy (text "down") none (pos 180)
    ∷ []

sent-IsSpaced_example : IsSpaced (pos 60) (sent (new_common_alerter (pos 60) (pos 600)) calls)
sent-IsSpaced_example = sent-IsSpaced calls (new_common_alerter (pos 60) (pos 600)) (
  (omega arith, (omega arith, (omega arith, tt))),
  ((omega arith, (omega arith, tt)), ((omega arith, tt), (tt, tt))),
)
