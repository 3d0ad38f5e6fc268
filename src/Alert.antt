-- ===== src/Alert.antt =====
-- alert/common.go: CommonAlerter, which sends the alerts of a group lazily. The lock makes each call
-- one step. A call carries the time that time.Now().Unix() gives it; the differences of such times
-- fit in an int64, so they are integers.
pub mod Spacing
pub mod Tests
use utils_go.Base.{Option, none, some, Bool, true, false, List, [], ◌∷◌, if◌then◌else◌}
use utils_go.Base.Int.{ℤ, ◌-ℤ◌, leb_ℤ}
use utils_go.Base.Text.{Text, text_eq}
use utils_go.Base.GoMap.{GoMap, lookup, insert}

pub record CommonAlerter : Type 0 where
  pub lazy_interval : ℤ
  pub lazy_reset : ℤ
  pub lazy_timer : GoMap Text ℤ

-- NewCommonAlerter
abbrev pub new_common_alerter : ℤ → ℤ → CommonAlerter
new_common_alerter lazy_interval lazy_reset = record {
  lazy_interval = lazy_interval;
  lazy_reset = lazy_reset;
  lazy_timer = [];
}

-- The arguments of AlertTextLazyGroup, and the time of the call.
pub record LazyCall : Type 0 where
  pub group : Text
  pub msg : Text
  pub err : Option Text
  pub now : ℤ

-- AlertTextLazy
abbrev pub alert_text_lazy : Text → Option Text → ℤ → LazyCall
alert_text_lazy msg err now = record { group = []; msg = msg; err = err; now = now }

-- ca.lazyTimer[group] = now
abbrev pub set_timer : LazyCall → CommonAlerter → CommonAlerter
set_timer c ca = record ca { lazy_timer = insert c.group c.now ca.lazy_timer }

-- DoAlertTextLazy; the test tells whether target.AlertText is called
unfoldable pub do_alert_text_lazy : LazyCall → CommonAlerter → CommonAlerter × Bool
do_alert_text_lazy c ca = elim (lookup c.group ca.lazy_timer) [
  | none ↦ (set_timer c ca, false)
  | some timer ↦
      if leb_ℤ ca.lazy_reset (c.now -ℤ timer)
      then (set_timer c ca, false)
      else if leb_ℤ ca.lazy_interval (c.now -ℤ timer)
      then (set_timer c ca, true)
      else (ca, false)
]

-- The calls of a sequence that send their alert.
unfoldable pub sent : CommonAlerter → List LazyCall → List LazyCall
unfolding do_alert_text_lazy
sent ca [] = []
sent ca (c ∷ cs) =
    let (ca', alerted) = do_alert_text_lazy c ca in
    let rest = sent ca' cs in if alerted then c ∷ rest else rest
