-- ===== src/Transport/SessionManager.antt =====
-- internal/transport/webrtc/session.go: the peers that this process holds, by schedule, participant
-- and stream type. A peer is a pointer, a number here; each method runs under the mutex as one step.
use vox_streaming.Base.{
  ℕ, ◌≡◌, refl, ◌≢◌, ◌↔◌, ◌⊎◌, inl, inr, Bool, true, false, ◌&&◌, List, [], ◌∷◌, Option, none, some,
  String, arith, ◌==◌, if◌then◌else◌, Bool-cases, length, sym, ap, ◌∙◌,
}
use vox_streaming.Base.Eq.{Eq, eq_refl}
use vox_streaming.Base.Text.{text_eq, text_eq_iff}
use vox_streaming.Base.Store.{Store, lookup, insert, remove, lookup-insert, lookup-remove}

pub record SessionKey : Type 0 where
  pub schedule_id : String
  pub participant_id : String
  pub stream_type : String

abbrev pub key_beq : SessionKey → SessionKey → Bool
key_beq a b =
    text_eq a.schedule_id b.schedule_id
    && (text_eq a.participant_id b.participant_id && text_eq a.stream_type b.stream_type)

abbrev key : String → String → String → SessionKey
key s p t = record { schedule_id = s; participant_id = p; stream_type = t }

pub key_beq_iff : (a b : SessionKey) → (key_beq a b ≡ true) ↔ (a ≡ b)
key_beq_iff a b = (
  λ h. same (ground arith) (ground arith) (ground arith),
  λ h. rw (
    h,
    (text_eq_iff b.schedule_id b.schedule_id).1 refl,
    (text_eq_iff b.participant_id b.participant_id).1 refl,
    (text_eq_iff b.stream_type b.stream_type).1 refl,
  ),
)
  where
    same :
        text_eq a.schedule_id b.schedule_id ≡ true
        → text_eq a.participant_id b.participant_id ≡ true
        → text_eq a.stream_type b.stream_type ≡ true
        → a ≡ b
    same x y z =
        let p = (text_eq_iff a.schedule_id b.schedule_id).0 x in
        let q = (text_eq_iff a.participant_id b.participant_id).0 y in
        let r = (text_eq_iff a.stream_type b.stream_type).0 z in
        ap (λ u. key u a.participant_id a.stream_type) p
        ∙ (ap (λ u. key b.schedule_id u a.stream_type) q
            ∙ ap (λ u. key b.schedule_id b.participant_id u) r)

instance abbrev pub eq_SessionKey : Eq SessionKey
eq_SessionKey = record { beq = key_beq; beq_iff = key_beq_iff }

abbrev pub Peer : Type 0
Peer = ℕ

abbrev pub Sessions : Type 0
Sessions = Store SessionKey Peer

-- `Get`, nil as none.
unfoldable pub get : SessionKey → Sessions → Option Peer
get k m = lookup k m

-- `Replace`: the peer that was registered, which the caller closes.
unfoldable pub replace : SessionKey → Peer → Sessions → Option Peer × Sessions
replace k p m = (lookup k m, insert k p m)

-- `Add`: the peer that the method closes, and the register.
unfoldable pub add : SessionKey → Peer → Sessions → Option Peer × Sessions
add k p m = elim (lookup k m) [ none ↦ (none, insert k p m) | some old ↦ (some old, insert k p m) ]

-- `current, ok := m.sessions[key]; ok && current == p`.
unfoldable pub is_current : Option Peer → Peer → Bool
is_current none p = false
is_current (some current) p = current == p

unfoldable pub remove_if_same : SessionKey → Peer → Sessions → Sessions
unfolding is_current
remove_if_same k p m = if is_current (lookup k m) p then remove k m else m

-- `Remove`.
unfoldable pub drop_session : SessionKey → Sessions → Sessions
drop_session k m = remove k m

unfoldable pub schedule_peers : String → Sessions → List Peer
schedule_peers s [] = []
schedule_peers s ((k, p) ∷ m) =
    let rest = schedule_peers s m in if text_eq k.schedule_id s then p ∷ rest else rest

unfoldable pub count : Sessions → ℕ
count m = length m

-- The steps of two connections of one student: the older peer leaves, and a newer one may have come.
pub data Step : Type 0 where
  replaces : SessionKey → Peer → Step
  adds : SessionKey → Peer → Step
  leaves : SessionKey → Peer → Step
  removes : SessionKey → Step

unfoldable pub step : Step → Sessions → Sessions
unfolding replace add remove_if_same drop_session
step (replaces k p) m = (replace k p m).1
step (adds k p) m = (add k p m).1
step (leaves k p) m = remove_if_same k p m
step (removes k) m = drop_session k m

unfoldable pub steps : List Step → Sessions → Sessions
unfolding step
steps [] m = m
steps (s ∷ ss) m = steps ss (step s m)

lookup-remove_if_same :
    (k j : SessionKey) (p : Peer) (m : Sessions)
    → lookup j (remove_if_same k p m)
      ≡ (if key_beq k j && is_current (lookup k m) p then none else lookup j m)
unfolding remove_if_same
lookup-remove_if_same k j p m = elim (Bool-cases (is_current (lookup k m) p)) [
  | inl e ↦ rw e (ground (arith, lookup-remove k j m))
  | inr e ↦ rw e (ground arith)
]

lookup-add :
    (k j : SessionKey) (p : Peer) (m : Sessions)
    → lookup j (add k p m).1 ≡ (if key_beq k j then some p else lookup j m)
unfolding add
lookup-add k j p m = go (lookup k m) refl
  where
    go :
        (o : Option Peer)
        → lookup k m ≡ o
        → lookup j (add k p m).1 ≡ (if key_beq k j then some p else lookup j m)
    go none e = rw (e, add) (lookup-insert k j p m)
    go (some old) e = rw (e, add) (lookup-insert k j p m)

-- The step leaves the peer `p` of the key `k` in place: it neither registers another peer under the
-- key, nor is it `p` that leaves, nor a removal of whatever is there.
abbrev pub Spares : SessionKey → Peer → Step → Type 0
Spares k p (replaces j q) = j ≢ k
Spares k p (adds j q) = j ≢ k
Spares k p (leaves j q) = (j ≢ k) ⊎ (q ≢ p)
Spares k p (removes j) = j ≢ k

abbrev pub AllSpare : SessionKey → Peer → List Step → Type 0
AllSpare k p [] = Unit
AllSpare k p (s ∷ ss) = Spares k p s × AllSpare k p ss

differs : (j k : SessionKey) → j ≢ k → key_beq j k ≡ false
differs j k h = elim (Bool-cases (key_beq j k)) [
  | inl e ↦ absurd (h ((key_beq_iff j k).0 e))
  | inr e ↦ e
]

step-Spares :
    (k : SessionKey) (p : Peer) (s : Step) (m : Sessions)
    → Spares k p s
    → lookup k m ≡ some p
    → lookup k (step s m) ≡ some p
unfolding step replace drop_session is_current
step-Spares k p (replaces j q) m h e = rw (lookup-insert j k q m, differs j k h) e
step-Spares k p (adds j q) m h e = rw (lookup-add j k q m, differs j k h) e
step-Spares k p (removes j) m h e = rw (lookup-remove j k m, differs j k h) e
step-Spares k p (leaves j q) m (inl h) e = rw (lookup-remove_if_same j k q m, differs j k h) e
step-Spares k p (leaves j q) m (inr h) e =
    rw (lookup-remove_if_same j k q m) (keeps (Bool-cases (key_beq j k)))
  where
    keeps :
        ((key_beq j k ≡ true) ⊎ (key_beq j k ≡ false))
        → (if key_beq j k && is_current (lookup j m) q then none else lookup k m) ≡ some p
    keeps (inl b) = rw (b, ap (λ x. lookup x m) ((key_beq_iff j k).0 b), e) (ground (arith, h))
    keeps (inr b) = rw (b, e)

-- Once a newer peer took a student's place, it stays registered whatever other connections do, the
-- late farewell of the peer it replaced included, until a peer is registered under the same key, it
-- leaves itself, or the key is removed.
pub steps-keep_peer :
    (k : SessionKey) (p : Peer) (ss : List Step) (m : Sessions)
    → AllSpare k p ss
    → get k (steps ss (replace k p m).1) ≡ some p
unfolding get steps replace
steps-keep_peer k p ss m h = go ss (insert k p m) h (rw (lookup-insert k k p m, eq_refl k))
  where
    go :
        (ss : List Step) (m : Sessions)
        → AllSpare k p ss
        → lookup k m ≡ some p
        → lookup k (steps ss m) ≡ some p
    go [] m h e = e
    go (s ∷ ss) m h e = go ss (step s m) h.1 (step-Spares k p s m h.0 e)

-- The peer that leaves is gone, and no other key changes.
pub get-remove_if_same :
    (k j : SessionKey) (p : Peer) (m : Sessions)
    → (get k (remove_if_same k p m) ≢ some p) × (j ≢ k → get j (remove_if_same k p m) ≡ get j m)
unfolding get is_current
get-remove_if_same k j p m = (
  λ e. absurd (gone (lookup k m) refl (sym (lookup-remove_if_same k k p m) ∙ e)),
  λ n. rw (lookup-remove_if_same k j p m, differs k j (λ e. n (sym e))),
)
  where
    gone :
        (o : Option Peer)
        → lookup k m ≡ o
        → (if key_beq k k && is_current (lookup k m) p then none else lookup k m) ≡ some p
        → ⊥
    gone none e h = ground (arith, e, h, eq_refl k)
    gone (some q) e h = ground (arith, e, h, eq_refl k)
