-- ===== src/Usecase/Alerts/Identity.antt =====
-- Whom an alert is credited to.
use vox_streaming.Base.{
  ◌≡◌, refl, ◌⊎◌, inl, inr, true, not, ◌&&◌, ◌||◌, List, [], ◌∷◌, String, if_ind, Elem,
}
use vox_streaming.Base.Text.{text_eq, is_empty}
use vox_streaming.Base.Failure.{Result, ok, err}
use vox_streaming.Domain.{AlertEvent}
use vox_streaming.Cache.Session.{SessionInfo}
use vox_streaming.Usecase.Alerts.Defs.{needs, matching, filled, filled_from, enrich_alert_identity}

-- An identifier is the producer's own, or it stood empty or for the session and comes from a
-- registration of the session.
abbrev pub Credited : String → String → String → (SessionInfo → String) → List SessionInfo → Type 0
Credited before after session_id field sessions =
    (after ≡ before)
    ⊎ ((needs before session_id ≡ true) × ((s : SessionInfo) × Elem s sessions × (after ≡ field s)))

matching-Elem :
    (t : String) (first : SessionInfo) (ss all : List SessionInfo)
    → Elem first all
    → ((s : SessionInfo) → Elem s ss → Elem s all)
    → Elem (matching t first ss) all
unfolding matching
matching-Elem t first [] all f h = f
matching-Elem t first (s ∷ ss) all f h =
    if_ind (λ (x : SessionInfo). Elem x all) (not (is_empty t) && text_eq s.stream_type t)
      (λ _. h s (inl refl)) (λ _. matching-Elem t first ss all f (λ x e. h x (inr e)))

abbrev pub FilledFields : List SessionInfo → AlertEvent → AlertEvent → Type 0
FilledFields sessions a b =
    Credited a.participant_id b.participant_id a.session_id (λ s. s.participant_id) sessions
    × Credited a.stream_id b.stream_id a.session_id (λ s. s.stream_id) sessions
    × (b.session_id ≡ a.session_id)
    × (b.event_id ≡ a.event_id)
    × (b.alert_type ≡ a.alert_type)

filled-FilledFields :
    (m : SessionInfo) (sessions : List SessionInfo) (a : AlertEvent)
    → Elem m sessions
    → FilledFields sessions a (filled m a)
unfolding filled
filled-FilledFields m sessions a h = (
  if_ind (λ (x : String). Credited a.participant_id x a.session_id (λ s. s.participant_id) sessions)
      (needs a.participant_id a.session_id) (λ e. inr (e, (m, h, refl))) (λ _. inl refl),
  if_ind (λ (x : String). Credited a.stream_id x a.session_id (λ s. s.stream_id) sessions)
      (needs a.stream_id a.session_id) (λ e. inr (e, (m, h, refl))) (λ _. inl refl),
  refl,
  refl,
  refl,
)

same_fields : (sessions : List SessionInfo) (a : AlertEvent) → FilledFields sessions a a
same_fields sessions a = (inl refl, inl refl, refl, refl, refl)

-- The sessions that a scan found.
abbrev pub found : Result (List SessionInfo) → List SessionInfo
found (err e) = []
found (ok ss) = ss

-- An alert's participant and stream are those that its producer gave, or, where the producer left
-- one empty or gave the session in its place, those of one registration of the alert's own session;
-- its session, its id and its kind are never changed.
pub enrich_alert_identity-FilledFields :
    (scan : String → Result (List SessionInfo)) (a : AlertEvent)
    → FilledFields (found (scan a.session_id)) a (enrich_alert_identity scan a)
unfolding enrich_alert_identity
enrich_alert_identity-FilledFields scan a =
    if_ind (λ (x : AlertEvent). FilledFields (found (scan a.session_id)) a x)
      (is_empty a.session_id
        || not (needs a.participant_id a.session_id) && not (needs a.stream_id a.session_id))
      (λ _. same_fields (found (scan a.session_id)) a) (λ _. go (scan a.session_id))
  where
    go : (r : Result (List SessionInfo)) → FilledFields (found r) a (filled_from r a)
    go (err e) = same_fields [] a
    go (ok []) = same_fields [] a
    go (ok (s ∷ ss)) =
        filled-FilledFields (matching a.stream_type s (s ∷ ss)) (s ∷ ss) a
          (matching-Elem a.stream_type s (s ∷ ss) (s ∷ ss) (inl refl) (λ x e. e))
