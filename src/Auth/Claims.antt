-- ===== src/Auth/Claims.antt =====
-- pkg/auth/jwt.go: the claims of the two kinds of token. Checking a token's signature and expiry, and
-- parsing a UUID, belong to libraries: what they answer is an argument.
use vox_streaming.Base.{
  Bool, true, false, not, ◌&&◌, ◌||◌, List, [], ◌∷◌, Option, none, some, String, if◌then◌else◌,
}
use vox_streaming.Base.Int.{ℤ, pos, leb_ℤ}
use vox_streaming.Base.Text.{text_eq, is_empty, contains}
use vox_streaming.Base.Failure.{Result, ok, err, message, ◌>>=◌, ◌>>◌}

abbrev pub role_teacher : String
role_teacher = "TEACHER"

abbrev pub role_school_admin : String
role_school_admin = "SCHOOL_ADMIN"

abbrev pub token_use_stream : String
token_use_stream = "stream"

abbrev pub token_use_monitor : String
token_use_monitor = "monitor"

pub record StreamClaims : Type 0 where
  pub candidate_id : String
  pub session_id : String
  pub schedule_id : String
  pub exam_id : String
  pub stream_types : List String
  pub token_use : String
  pub schedule_end_at : ℤ

-- With the registered claims that the validator reads: `sub` and `jti`.
pub record MonitorClaims : Type 0 where
  pub user_id : String
  pub school_id : String
  pub monitor_scope : String
  pub schedule_ids : List String
  pub exam_id : String
  pub roles : List String
  pub token_use : String
  pub subject : String
  pub jti : String

unfoldable pub can_stream : StreamClaims → String → Bool
can_stream c stream_type = contains c.stream_types stream_type

unfoldable pub can_access : StreamClaims → String → String → Bool
unfolding can_stream
can_access c schedule_id stream_type = text_eq c.schedule_id schedule_id && can_stream c stream_type

-- `ScheduleEnd`, in seconds of Unix time.
unfoldable pub schedule_end : StreamClaims → Option ℤ
schedule_end c = if leb_ℤ c.schedule_end_at (pos 0) then none else some c.schedule_end_at

unfoldable pub has_role : MonitorClaims → String → Bool
has_role c target = contains c.roles target

unfoldable pub has_monitor_role : MonitorClaims → Bool
unfolding has_role
has_monitor_role c = has_role c role_teacher || has_role c role_school_admin

unfoldable pub has_valid_scope_role : MonitorClaims → Bool
unfolding has_role
has_valid_scope_role c =
    if text_eq c.monitor_scope "SCHOOL_ADMIN"
    then has_role c role_school_admin
    else if text_eq c.monitor_scope "EXAM_CHAIR" || text_eq c.monitor_scope "SCHEDULE_PROCTOR"
    then has_role c role_teacher
    else false

unfoldable pub can_monitor_schedule : MonitorClaims → String → Bool
unfolding has_valid_scope_role
can_monitor_schedule c schedule_id =
    if not (has_valid_scope_role c) then false else contains c.schedule_ids schedule_id

-- `if bad { return errors.New(text) }`.
abbrev pub refuse_if : Bool → String → Result (Unit {0})
refuse_if true text = err (message text)
refuse_if false text = ok tt

unfoldable pub supported_types : List String → Result (Unit {0})
supported_types [] = ok tt
supported_types (t ∷ ts) =
    refuse_if (not (text_eq t "camera") && not (text_eq t "screen")) "unsupported stream type"
    >> supported_types ts

abbrev pub no_items : List String → Bool
no_items [] = true
no_items (x ∷ xs) = false

unfoldable pub validate_stream : Result StreamClaims → Result StreamClaims
unfolding supported_types is_empty
validate_stream parsed = do
  c ← parsed
  refuse_if (not (text_eq c.token_use token_use_stream)) "invalid token use"
  refuse_if (is_empty c.candidate_id) "missing candidateId"
  refuse_if (is_empty c.session_id) "missing sessionId"
  refuse_if (is_empty c.schedule_id) "missing scheduleId"
  refuse_if (is_empty c.exam_id) "missing examId"
  refuse_if (no_items c.stream_types) "missing streamTypes"
  supported_types c.stream_types
  ok c

-- The loop over the schedules, with those that were seen.
unfoldable pub schedules_checked : (String → Bool) → List String → List String → Result (Unit {0})
schedules_checked is_uuid seen [] = ok tt
schedules_checked is_uuid seen (s ∷ ss) = do
  refuse_if (not (is_uuid s)) "invalid scheduleId"
  refuse_if (contains seen s) "duplicate scheduleId"
  schedules_checked is_uuid (s ∷ seen) ss

unfoldable pub validate_monitor : (String → Bool) → Result MonitorClaims → Result MonitorClaims
unfolding schedules_checked has_monitor_role is_empty
validate_monitor is_uuid parsed = do
  c ← parsed
  refuse_if (not (text_eq c.token_use token_use_monitor)) "invalid token use"
  refuse_if (is_empty c.user_id) "missing userId"
  refuse_if (not (text_eq c.subject c.user_id)) "subject and userId mismatch"
  refuse_if (is_empty c.school_id) "missing schoolId"
  refuse_if (is_empty c.exam_id) "missing examId"
  refuse_if (no_items c.schedule_ids) "missing scheduleIds"
  refuse_if (is_empty c.jti) "missing jti"
  refuse_if (not (has_monitor_role c)) "missing monitor role"
  refuse_if (not (is_uuid c.user_id)) "invalid userId"
  refuse_if (not (is_uuid c.school_id)) "invalid schoolId"
  refuse_if (not (is_uuid c.exam_id)) "invalid examId"
  schedules_checked is_uuid [] c.schedule_ids
  ok c
