-- ===== src/Auth/Monitors.antt =====
-- What a monitor token that was accepted says, and whom it lets in.
use vox_streaming.Base.{
  ◌≡◌, refl, ◌≢◌, ◌⊎◌, inl, inr, Bool, true, false, not, ◌||◌, List, [], ◌∷◌, String, arith,
  Bool-cases, All, sym, ap, subst, ◌∙◌,
}
use vox_streaming.Base.Text.{text_eq, text_eq_iff, text_eq_sym, is_empty, contains}
use vox_streaming.Base.Failure.{Result, ok, err, >>=-eq-ok, ok-injective}
use vox_streaming.Auth.Claims.{
  StreamClaims, MonitorClaims, token_use_stream, token_use_monitor, has_role, has_monitor_role,
  has_valid_scope_role, can_monitor_schedule, no_items, validate_stream, schedules_checked,
  validate_monitor, role_teacher, role_school_admin,
}
use vox_streaming.Auth.Access.{passed, All-contains, not-true, validate_stream-access}

-- No text stands twice in a list.
abbrev pub NoRepeat : List String → Type 0
NoRepeat [] = Unit
NoRepeat (x ∷ xs) = (contains xs x ≡ false) × NoRepeat xs

-- A schedule is a UUID that was not seen before.
abbrev Unseen : (String → Bool) → List String → String → Type 0
Unseen is_uuid seen s = (is_uuid s ≡ true) × (contains seen s ≡ false)

fresh_head :
    (is_uuid : String → Bool) (s : String) (seen ss : List String)
    → All (Unseen is_uuid (s ∷ seen)) ss
    → (contains ss s ≡ false) × All (Unseen is_uuid seen) ss
unfolding contains
fresh_head is_uuid s seen [] a = (refl, tt)
fresh_head is_uuid s seen (x ∷ xs) a =
    let r = fresh_head is_uuid s seen xs a.1 in
    (ground (arith, text_eq_sym s x, a.0.1, r.0), ((a.0.0, ground (arith, a.0.1)), r.1))

schedules_checked-Unseen :
    (is_uuid : String → Bool) (seen ss : List String)
    → schedules_checked is_uuid seen ss ≡ ok tt
    → All (Unseen is_uuid seen) ss × NoRepeat ss
unfolding schedules_checked
schedules_checked-Unseen is_uuid seen [] h = (tt, tt)
schedules_checked-Unseen is_uuid seen (s ∷ ss) h =
    let a = passed (not (is_uuid s)) "invalid scheduleId" _ tt h in
    let b =
      passed (contains seen s) "duplicate scheduleId" (schedules_checked is_uuid (s ∷ seen) ss) tt
        a.1 in
    let r = schedules_checked-Unseen is_uuid (s ∷ seen) ss b.1 in
    let f = fresh_head is_uuid s seen ss r.0 in (((not-true (is_uuid s) a.0, b.0), f.1), (f.0, r.1))

-- What a monitor token that was accepted guarantees.
abbrev pub IsMonitorToken : (String → Bool) → MonitorClaims → Type 0
IsMonitorToken is_uuid c =
    (text_eq c.token_use token_use_monitor ≡ true)
    × (c.subject ≡ c.user_id)
    × (is_empty c.jti ≡ false)
    × (has_monitor_role c ≡ true)
    × (is_uuid c.user_id ≡ true)
    × (is_uuid c.school_id ≡ true)
    × (is_uuid c.exam_id ≡ true)
    × All (λ s. is_uuid s ≡ true) c.schedule_ids
    × NoRepeat c.schedule_ids

All-left :
    (is_uuid : String → Bool) (ss : List String)
    → All (Unseen is_uuid []) ss
    → All (λ s. is_uuid s ≡ true) ss
All-left is_uuid [] a = tt
All-left is_uuid (s ∷ ss) a = (a.0.0, All-left is_uuid ss a.1)

monitor_claims :
    (is_uuid : String → Bool) (d c : MonitorClaims)
    → validate_monitor is_uuid (ok d) ≡ ok c
    → (d ≡ c) × IsMonitorToken is_uuid d
unfolding validate_monitor
monitor_claims is_uuid d c h =
    let a = passed (not (text_eq d.token_use token_use_monitor)) "invalid token use" _ c h in
    let b = passed (is_empty d.user_id) "missing userId" _ c a.1 in
    let e = passed (not (text_eq d.subject d.user_id)) "subject and userId mismatch" _ c b.1 in
    let f = passed (is_empty d.school_id) "missing schoolId" _ c e.1 in
    let g = passed (is_empty d.exam_id) "missing examId" _ c f.1 in
    let i = passed (no_items d.schedule_ids) "missing scheduleIds" _ c g.1 in
    let j = passed (is_empty d.jti) "missing jti" _ c i.1 in
    let k = passed (not (has_monitor_role d)) "missing monitor role" _ c j.1 in
    let l = passed (not (is_uuid d.user_id)) "invalid userId" _ c k.1 in
    let m = passed (not (is_uuid d.school_id)) "invalid schoolId" _ c l.1 in
    let n = passed (not (is_uuid d.exam_id)) "invalid examId" _ c m.1 in
    let o = >>=-eq-ok (schedules_checked is_uuid [] d.schedule_ids) (λ _. ok d) n.1 in
    let u = schedules_checked-Unseen is_uuid [] d.schedule_ids o.1 in
    (
      ok-injective o.2,
      (
        not-true (text_eq d.token_use token_use_monitor) a.0,
        (text_eq_iff d.subject d.user_id).0 (not-true (text_eq d.subject d.user_id) e.0),
        j.0,
        not-true (has_monitor_role d) k.0,
        not-true (is_uuid d.user_id) l.0,
        not-true (is_uuid d.school_id) m.0,
        not-true (is_uuid d.exam_id) n.0,
        All-left is_uuid d.schedule_ids u.0,
        u.1,
      ),
    )

-- A monitor token that was accepted carries what the library parsed, names its bearer twice alike and
-- lists UUIDs without a repeat; its bearer may watch a schedule only if the token lists it and the
-- bearer has the role of the token's scope.
pub validate_monitor-access :
    (is_uuid : String → Bool) (parsed : Result MonitorClaims) (c : MonitorClaims)
    (schedule_id : String)
    → validate_monitor is_uuid parsed ≡ ok c
    → (parsed ≡ ok c)
      × IsMonitorToken is_uuid c
      × (can_monitor_schedule c schedule_id ≡ true
          → (contains c.schedule_ids schedule_id ≡ true)
            × (is_uuid schedule_id ≡ true)
            × (((text_eq c.monitor_scope "SCHOOL_ADMIN" ≡ true)
                  × (contains c.roles role_school_admin ≡ true))
                ⊎ ((text_eq c.monitor_scope "EXAM_CHAIR"
                        || text_eq c.monitor_scope "SCHEDULE_PROCTOR"
                      ≡ true)
                    × (contains c.roles role_teacher ≡ true))))
unfolding validate_monitor can_monitor_schedule has_valid_scope_role has_role
validate_monitor-access is_uuid (err e) c schedule_id h = cc
validate_monitor-access is_uuid (ok d) c schedule_id h =
    let s = monitor_claims is_uuid d c h in
    let t = subst (IsMonitorToken is_uuid) s.0 s.1 in
    (
      ap (λ x. ok x) s.0,
      t,
      λ a. (
        ground (arith, a),
        All-contains (λ s. is_uuid s ≡ true) c.schedule_ids schedule_id t.7 (ground (arith, a)),
        scope a (Bool-cases (text_eq c.monitor_scope "SCHOOL_ADMIN")),
      ),
    )
  where
    scope :
        can_monitor_schedule c schedule_id ≡ true
        → ((text_eq c.monitor_scope "SCHOOL_ADMIN" ≡ true)
            ⊎ (text_eq c.monitor_scope "SCHOOL_ADMIN" ≡ false))
        → ((text_eq c.monitor_scope "SCHOOL_ADMIN" ≡ true)
            × (contains c.roles role_school_admin ≡ true))
          ⊎ ((text_eq c.monitor_scope "EXAM_CHAIR" || text_eq c.monitor_scope "SCHEDULE_PROCTOR"
                ≡ true)
              × (contains c.roles role_teacher ≡ true))
    scope a (inl e) = inl (e, ground (arith, a, e))
    scope a (inr e) = inr (ground (arith, a, e), ground (arith, a, e))

-- Two claims of one token agree on its use, so no token is accepted both as a stream token and as a
-- monitor token.
pub tokens_apart :
    (is_uuid : String → Bool) (as_stream : Result StreamClaims) (as_monitor : Result MonitorClaims)
    (c : StreamClaims) (m : MonitorClaims)
    → validate_stream as_stream ≡ ok c
    → validate_monitor is_uuid as_monitor ≡ ok m
    → c.token_use ≢ m.token_use
tokens_apart is_uuid as_stream as_monitor c m hs hm e =
    let a = (validate_stream-access as_stream c "" "" hs).1.0 in
    let b = (validate_monitor-access is_uuid as_monitor m "" hm).1.0 in
    two (
      sym ((text_eq_iff c.token_use token_use_stream).0 a)
      ∙ (e ∙ (text_eq_iff m.token_use token_use_monitor).0 b))
  where
    two : token_use_stream ≡ token_use_monitor → ⊥
    two h = cc
