-- ===== src/Usecase/Alerts/Published.antt =====
-- What is published of an alert.
use vox_streaming.Base.{
  ℕ, ◌≡◌, refl, ◌≢◌, Bool, true, false, Option, none, some, String, if◌then◌else◌, if_ind, sym, ap,
  subst, ◌∙◌,
}
use vox_streaming.Base.Text.{text_eq, is_empty}
use vox_streaming.Base.Failure.{ok, Fault}
use vox_streaming.Domain.{
  AlertEvent, default_alert_level, is_critical_type, is_warning_type, alert_level_critical,
  alert_level_warning, alert_level_info,
}
use vox_streaming.Base.Clock.{is_zero}
use vox_streaming.Usecase.Alerts.Identity.{enrich_alert_identity-FilledFields}
use vox_streaming.Usecase.Alerts.Defs.{
  enrich_alert_identity, AlertCalls, publish_alert, prepared, delivery,
}

default_alert_level_given : (t : String) → is_empty (default_alert_level t) ≡ false
unfolding default_alert_level is_empty
default_alert_level_given t = go (is_critical_type t) (is_warning_type t)
  where
    go :
        (a b : Bool)
        → text_eq
            (if a
              then alert_level_critical
              else if b
              then alert_level_warning
              else alert_level_info)
            ""
          ≡ false
    go true b = refl
    go false true = refl
    go false false = refl

-- What is published is complete, whatever the producer left out: the live alert and the durable one
-- are the same, with an id, a level and a time, and the id is the caller's if there is one. The call
-- fails only if both ways failed.
pub publish_alert_complete :
    (w : AlertCalls) (alert : AlertEvent) (event_id : String)
    → is_empty w.new_id ≡ false
    → is_zero w.now ≡ false
    → (is_empty (publish_alert w alert event_id).live.event_id ≡ false)
      × (is_empty event_id ≡ false → (publish_alert w alert event_id).live.event_id ≡ event_id)
      × (is_empty (publish_alert w alert event_id).live.level ≡ false)
      × (is_zero (publish_alert w alert event_id).live.captured_at ≡ false)
      × ((publish_alert w alert event_id).result ≢ ok tt
          → (w.live_fault ≢ none) × (w.durable ≢ none) × (w.durable ≢ some none))
unfolding publish_alert prepared
publish_alert_complete w alert event_id fresh time =
    let same_id = (enrich_alert_identity-FilledFields w.scan given).3 in
    (
      subst (λ x. is_empty x ≡ false) (sym same_id)
          (if_ind (λ (x : String). is_empty x ≡ false) (is_empty event_id) {x = w.new_id}
            {y = event_id} (λ _. fresh) (λ e. e)),
      λ h. same_id ∙ ap (λ (b : Bool). if b then w.new_id else event_id) h,
      if_ind (λ (x : String). is_empty x ≡ false)
          (is_empty (enrich_alert_identity w.scan given).level)
          {x = default_alert_level (enrich_alert_identity w.scan given).alert_type}
          {y = (enrich_alert_identity w.scan given).level}
          (λ _. default_alert_level_given (enrich_alert_identity w.scan given).alert_type) (λ e. e),
      if_ind (λ (x : ℕ). is_zero x ≡ false)
          (is_zero (enrich_alert_identity w.scan given).captured_at) {x = w.now}
          {y = (enrich_alert_identity w.scan given).captured_at} (λ _. time) (λ e. e),
      both w.live_fault w.durable,
    )
  where
    given : AlertEvent
    given = record alert { event_id = if is_empty event_id then w.new_id else event_id }

    both :
        (l : Fault) (d : Option Fault)
        → delivery l d ≢ ok tt
        → (l ≢ none) × (d ≢ none) × (d ≢ some none)
    both none d h = absurd (h refl)
    both (some l) none h = absurd (h refl)
    both (some l) (some none) h = absurd (h refl)
    both (some l) (some (some d)) h = ((λ e. cc), (λ e. cc), (λ e. cc))
