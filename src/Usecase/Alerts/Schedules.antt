-- ===== src/Usecase/Alerts/Schedules.antt =====
-- The active schedules that a proctor may see.
use vox_streaming.Base.{
  ◌+◌, ◌≡◌, refl, Bool, true, false, List, [], ◌∷◌, ◌++◌, String, arith, if◌then◌else◌, if_ind,
  length, All, sym, ap, subst, ◌∙◌,
}
use vox_streaming.Base.Text.{text_eq, text_eq_iff, contains}
use vox_streaming.Base.Failure.{ok, ok-injective}
use vox_streaming.Cache.Session.{SessionInfo}
use vox_streaming.Usecase.Alerts.Defs.{
  StreamInfo, ScheduleSummary, info_of, add_stream, summarise, get_active_schedules,
}

-- A summary is of a schedule that is allowed, and counts the streams that it lists.
abbrev pub IsSummary : List String → ScheduleSummary → Type 0
IsSummary allowed s = (contains allowed s.schedule_id ≡ true) × (s.active_count ≡ length s.streams)

length-snoc : {A : Type 0} (xs : List A) (x : A) → length (xs ++ (x ∷ [])) ≡ length xs + 1
length-snoc [] x = omega arith
length-snoc (y ∷ xs) x = omega (arith, length-snoc xs x)

add_stream-IsSummary :
    (allowed : List String) (schedule_id : String) (i : StreamInfo) (ss : List ScheduleSummary)
    → contains allowed schedule_id ≡ true
    → All (IsSummary allowed) ss
    → All (IsSummary allowed) (add_stream schedule_id i ss)
unfolding add_stream
add_stream-IsSummary allowed schedule_id i [] h a = ((h, omega arith), tt)
add_stream-IsSummary allowed schedule_id i (s ∷ ss) h a =
    if_ind (λ (x : List ScheduleSummary). All (IsSummary allowed) x)
      (text_eq s.schedule_id schedule_id)
      (λ _. ((a.0.0, omega (arith, a.0.1, length-snoc s.streams i)), a.1))
      (λ _. (a.0, add_stream-IsSummary allowed schedule_id i ss h a.1))

summarise-IsSummary :
    (allowed : List String) (acc : List ScheduleSummary) (ss : List SessionInfo)
    → All (IsSummary allowed) acc
    → All (IsSummary allowed) (summarise allowed acc ss)
unfolding summarise
summarise-IsSummary allowed acc [] a = a
summarise-IsSummary allowed acc (s ∷ ss) a =
    summarise-IsSummary allowed
      (if contains allowed s.schedule_id then add_stream s.schedule_id (info_of s) acc else acc) ss
      (if_ind (λ (x : List ScheduleSummary). All (IsSummary allowed) x)
        (contains allowed s.schedule_id)
        (λ e. add_stream-IsSummary allowed s.schedule_id (info_of s) acc e a) (λ _. a))

-- The streams of a schedule in a list of summaries.
unfoldable pub streams_of : String → List ScheduleSummary → List StreamInfo
streams_of schedule_id [] = []
streams_of schedule_id (s ∷ ss) =
    let rest = streams_of schedule_id ss in
    if text_eq s.schedule_id schedule_id then s.streams else rest

unfoldable pub sessions_of : String → List SessionInfo → List StreamInfo
sessions_of schedule_id [] = []
sessions_of schedule_id (s ∷ ss) =
    let rest = sessions_of schedule_id ss in
    if text_eq s.schedule_id schedule_id then info_of s ∷ rest else rest

streams_of-add_stream :
    (x y : String) (i : StreamInfo) (ss : List ScheduleSummary)
    → streams_of y (add_stream x i ss)
      ≡ (if text_eq x y then streams_of y ss ++ (i ∷ []) else streams_of y ss)
unfolding streams_of add_stream
streams_of-add_stream x y i [] = ground arith
streams_of-add_stream x y i (s ∷ ss) = ground (
  arith,
  text_eq_iff x y,
  text_eq_iff s.schedule_id x,
  text_eq_iff s.schedule_id y,
  streams_of-add_stream x y i ss,
)

append-snoc :
    {A : Type 0} (xs : List A) (x : A) (ys : List A) → (xs ++ (x ∷ [])) ++ ys ≡ xs ++ (x ∷ ys)
append-snoc [] x ys = refl
append-snoc (z ∷ xs) x ys = ap (λ l. z ∷ l) (append-snoc xs x ys)

append-nil : {A : Type 0} (xs : List A) → xs ++ [] ≡ xs
append-nil [] = refl
append-nil (x ∷ xs) = ap (λ l. x ∷ l) (append-nil xs)

summarise-streams :
    (allowed : List String) (y : String) (acc : List ScheduleSummary) (ss : List SessionInfo)
    → contains allowed y ≡ true
    → streams_of y (summarise allowed acc ss) ≡ streams_of y acc ++ sessions_of y ss
unfolding summarise sessions_of
summarise-streams allowed y acc [] h = sym (append-nil (streams_of y acc))
summarise-streams allowed y acc (s ∷ ss) h =
    summarise-streams allowed y
      (if contains allowed s.schedule_id then add_stream s.schedule_id (info_of s) acc else acc) ss
      h
    ∙ step (text_eq s.schedule_id y) refl
  where
    step :
        (b : Bool)
        → text_eq s.schedule_id y ≡ b
        → streams_of y (
              if contains allowed s.schedule_id
              then add_stream s.schedule_id (info_of s) acc
              else acc)
            ++ sessions_of y ss
          ≡ streams_of y acc
            ++ (if text_eq s.schedule_id y then info_of s ∷ sessions_of y ss else sessions_of y ss)
    step true e =
        let known =
          subst (λ x. contains allowed x ≡ true) (sym ((text_eq_iff s.schedule_id y).0 e)) h in
        rw (known, streams_of-add_stream s.schedule_id y (info_of s) acc, e)
          (append-snoc (streams_of y acc) (info_of s) (sessions_of y ss))
    step false e = go (contains allowed s.schedule_id)
      where
        go :
            (c : Bool)
            → streams_of y (if c then add_stream s.schedule_id (info_of s) acc else acc)
                ++ sessions_of y ss
              ≡ streams_of y acc
                ++ (if text_eq s.schedule_id y
                    then info_of s ∷ sessions_of y ss
                    else sessions_of y ss)
        go true = rw (streams_of-add_stream s.schedule_id y (info_of s) acc, e)
        go false = rw e

-- The summary of active schedules lists, for a schedule that the proctor may see, exactly the scanned
-- streams of that schedule, in the order of the scan; it has no schedule that the proctor may not see,
-- and each count is the number of streams listed.
pub get_active_schedules-streams :
    (allowed : List String) (all : List SessionInfo) (summaries : List ScheduleSummary)
    → get_active_schedules allowed (ok all) ≡ ok summaries
    → All (IsSummary allowed) summaries
      × ((y : String) → contains allowed y ≡ true → streams_of y summaries ≡ sessions_of y all)
unfolding get_active_schedules streams_of
get_active_schedules-streams allowed all summaries h =
    subst
      (λ (x : List ScheduleSummary).
        All (IsSummary allowed) x
        × ((y : String) → contains allowed y ≡ true → streams_of y x ≡ sessions_of y all))
      (ok-injective h)
      (summarise-IsSummary allowed [] all tt, λ y e. summarise-streams allowed y [] all e)
