-- ===== src/Alert/Spacing.antt =====
-- alert/common.go: how far apart the alerts of a group are.
use mathlib.Core.Path.{subst}
use utils_go.Base.{
  ◌≡◌, ◌∙◌, some, true, false, List, [], ◌∷◌, ◌==◌, arith, All, Bool-cases, inl, inr,
}
use utils_go.Base.Int.{ℤ, ◌+ℤ◌, ◌-ℤ◌, ◌≤ℤ◌, leb_ℤ, leb_ℤ→le, int_laws}
use utils_go.Base.Text.{Text, text_eq}
use utils_go.Base.GoMap.{lookup, lookup-insert_self, lookup-insert_ne}
use utils_go.Alert.{CommonAlerter, LazyCall, do_alert_text_lazy, sent}

-- The times of the calls do not fall.
abbrev pub IsOrdered : List LazyCall → Type 0
IsOrdered [] = Unit
IsOrdered (c ∷ cs) = All (λ d. c.now ≤ℤ d.now) cs × IsOrdered cs

-- Two alerts of one group are at least the interval apart.
abbrev pub IsSpaced : ℤ → List LazyCall → Type 0
IsSpaced interval [] = Unit
IsSpaced interval (c ∷ cs) =
    All (λ d. d.group ≡ c.group → c.now +ℤ interval ≤ℤ d.now) cs × IsSpaced interval cs

-- What a call does to the timer of its own group.
own_timer :
    (c : LazyCall) (ca : CommonAlerter) (timer : ℤ)
    → lookup c.group ca.lazy_timer ≡ some timer
    → timer ≤ℤ c.now
    → (after : ℤ) × (lookup c.group (do_alert_text_lazy c ca).0.lazy_timer ≡ some after)
      × (timer ≤ℤ after)
      × (after ≤ℤ c.now)
      × ((do_alert_text_lazy c ca).1 ≡ true → timer +ℤ ca.lazy_interval ≤ℤ c.now)
unfolding do_alert_text_lazy
own_timer c ca timer found past =
    let set = lookup-insert_self c.group c.now ca.lazy_timer in
    elim (Bool-cases (leb_ℤ ca.lazy_reset (c.now -ℤ timer))) [
      | inl late ↦ (
        c.now,
        rw (found, do_alert_text_lazy, late) set,
        past,
        omega arith,
        rw (found, do_alert_text_lazy, late) (λ h. cc),
      )
      | inr soon ↦ elim (Bool-cases (leb_ℤ ca.lazy_interval (c.now -ℤ timer))) [
        | inl due ↦
            let apart : ca.lazy_interval ≤ℤ c.now -ℤ timer =
              leb_ℤ→le ca.lazy_interval (c.now -ℤ timer) due in
            (
              c.now,
              rw (found, do_alert_text_lazy, soon, due) set,
              past,
              omega arith,
              λ h. omega int_laws,
            )
        | inr early ↦ (
          timer,
          rw (found, do_alert_text_lazy, soon, early) found,
          omega arith,
          past,
          rw (found, do_alert_text_lazy, soon, early) (λ h. cc),
        )
      ]
    ]

alert_sets_timer :
    (c : LazyCall) (ca : CommonAlerter)
    → (do_alert_text_lazy c ca).1 ≡ true
    → lookup c.group (do_alert_text_lazy c ca).0.lazy_timer ≡ some c.now
unfolding do_alert_text_lazy
alert_sets_timer c ca alerted = ground (arith, lookup-insert_self c.group c.now ca.lazy_timer)

other_timer :
    (c : LazyCall) (ca : CommonAlerter) (k : Text)
    → (c.group == k) ≡ false
    → lookup k (do_alert_text_lazy c ca).0.lazy_timer ≡ lookup k ca.lazy_timer
unfolding do_alert_text_lazy
other_timer c ca k other = ground (arith, lookup-insert_ne c.group k c.now ca.lazy_timer)

same_interval :
    (c : LazyCall) (ca : CommonAlerter)
    → (do_alert_text_lazy c ca).0.lazy_interval ≡ ca.lazy_interval
unfolding do_alert_text_lazy
same_interval c ca = ground arith

-- The times of the later calls are past a time that is not past them all.
All-past :
    (t now : ℤ) (cs : List LazyCall)
    → t ≤ℤ now
    → All (λ d. now ≤ℤ d.now) cs
    → All (λ d. t ≤ℤ d.now) cs
All-past t now [] h hs = tt
All-past t now (d ∷ cs) h hs =
    let later : now ≤ℤ d.now = hs.0 in (omega arith, All-past t now cs h hs.1)

-- Alerts of the group `k` that are apart from a time are apart from an earlier one.
All-apart :
    (interval t t' : ℤ) (k : Text) (cs : List LazyCall)
    → t ≤ℤ t'
    → All (λ d. d.group ≡ k → t' +ℤ interval ≤ℤ d.now) cs
    → All (λ d. d.group ≡ k → t +ℤ interval ≤ℤ d.now) cs
All-apart interval t t' k [] h hs = tt
All-apart interval t t' k (d ∷ cs) h hs = (
  (λ e. let apart : t' +ℤ interval ≤ℤ d.now = hs.0 e in omega int_laws),
  All-apart interval t t' k cs h hs.1,
)

-- After the timer of a group was set, its alerts are at least the interval after that time.
sent_apart :
    (cs : List LazyCall) (ca : CommonAlerter) (k : Text) (timer : ℤ)
    → lookup k ca.lazy_timer ≡ some timer
    → All (λ d. timer ≤ℤ d.now) cs
    → IsOrdered cs
    → All (λ d. d.group ≡ k → timer +ℤ ca.lazy_interval ≤ℤ d.now) (sent ca cs)
unfolding sent
sent_apart [] ca k timer found past ordered = tt
sent_apart (c ∷ cs) ca k timer found past ordered =
    let ca' = (do_alert_text_lazy c ca).0 in
    let rest = sent ca' cs in
    let interval_kept = same_interval c ca in
    elim (Bool-cases (c.group == k)) [
      | inl own ↦
          let e : c.group ≡ k = (text_eq.equal_iff c.group k).0 own in
          let (after, held, grown, passed, due) = own_timer c ca timer (rw e found) past.0 in
          let later : All (λ d. d.group ≡ k → timer +ℤ ca.lazy_interval ≤ℤ d.now) rest =
            All-apart ca.lazy_interval timer after k rest grown (
              subst (λ i. All (λ d. d.group ≡ k → after +ℤ i ≤ℤ d.now) rest) interval_kept
                (sent_apart cs ca' k after
                  (subst (λ g. lookup g ca'.lazy_timer ≡ some after) e held)
                  (All-past after c.now cs passed ordered.0) ordered.1)) in
          elim (Bool-cases (do_alert_text_lazy c ca).1) [
            | inl alerted ↦ rw alerted ((λ _. due alerted), later)
            | inr quiet ↦ rw quiet later
          ]
      | inr other ↦
          let later : All (λ d. d.group ≡ k → timer +ℤ ca.lazy_interval ≤ℤ d.now) rest =
            subst (λ i. All (λ d. d.group ≡ k → timer +ℤ i ≤ℤ d.now) rest) interval_kept
              (sent_apart cs ca' k timer (other_timer c ca k other ∙ found) past.1 ordered.1) in
          elim (Bool-cases (do_alert_text_lazy c ca).1) [
            | inl alerted ↦
                rw alerted ((λ e. absurd (ground (arith, text_eq.equal_iff c.group k))), later)
            | inr quiet ↦ rw quiet later
          ]
    ]

-- Where the times of the calls do not fall, two alerts that are sent for one group are at least
-- lazyInterval apart, whatever the alerter was before.
pub sent-IsSpaced :
    (cs : List LazyCall) (ca : CommonAlerter)
    → IsOrdered cs
    → IsSpaced ca.lazy_interval (sent ca cs)
unfolding sent
sent-IsSpaced [] ca ordered = tt
sent-IsSpaced (c ∷ cs) ca ordered =
    let ca' = (do_alert_text_lazy c ca).0 in
    let later : IsSpaced ca.lazy_interval (sent ca' cs) =
      subst (λ i. IsSpaced i (sent ca' cs)) (same_interval c ca) (sent-IsSpaced cs ca' ordered.1) in
    elim (Bool-cases (do_alert_text_lazy c ca).1) [
      | inr quiet ↦ rw quiet later
      | inl alerted ↦
          let apart : All (λ d. d.group ≡ c.group → c.now +ℤ ca.lazy_interval ≤ℤ d.now)
              (sent ca' cs) =
            subst (λ i. All (λ d. d.group ≡ c.group → c.now +ℤ i ≤ℤ d.now) (sent ca' cs))
              (same_interval c ca)
              (sent_apart cs ca' c.group c.now (alert_sets_timer c ca alerted) ordered.0
                ordered.1) in
          rw alerted (apart, later)
    ]
