-- ===== src/Cache/Upload/Invariant.antt =====
-- What every stored upload session satisfies: it stands under its own stream, and Redis drops it no
-- later than the moment at which it expires.
use vox_streaming.Base.{
  ℕ, ◌+◌, ◌-◌, ◌*◌, ◌/◌, ◌≤◌, ◌<◌, ◌≡◌, refl, Bool, false, not, Option, none, some, String, arith,
  leb, ltb, if◌then◌else◌, min, ◌==◌, if_ind, Bool-cases, inl, inr, subst, sym,
}
use vox_streaming.Base.Text.{text_eq, text_eq_iff}
use vox_streaming.Base.Clock.{Time}
use vox_streaming.Base.Eq.{eq_text}
use vox_streaming.Base.Store.{lookup, lookup-insert, lookup-remove}
use vox_streaming.Base.Redis.{
  Keys, Cell, Document, doc, garbage, get, get_cell, live, set, del, value_of,
}
use vox_streaming.Base.Failure.{Result, ok, err, Fault, upload_session_not_found}
use vox_streaming.Cache.Upload.Registry.{
  UploadSession, UploadRegistry, register_fresh, register_resumed, register_indexed,
  register_script, register_or_get_upload, lookup_found, lookup_upload, completed_session,
  complete_cell, mark_upload_complete, registered, registered_or_fault, max_duration,
}

abbrev pub DocumentFits : String → ℕ → Document UploadSession → Type 0
DocumentFits k deadline garbage = Unit
DocumentFits k deadline (doc s) = (s.stream_id ≡ k) × (deadline ≤ s.expires_at)

abbrev pub CellFits : String → Option (Cell (Document UploadSession)) → Type 0
CellFits k none = Unit
CellFits k (some c) = DocumentFits k c.deadline c.value

abbrev pub IsValid : UploadRegistry → Type 0
IsValid r = (k : String) → CellFits k (lookup k r.sessions)

fits_if :
    (i k : String) (c : Cell (Document UploadSession)) (o : Option (Cell (Document UploadSession)))
    → CellFits i (some c)
    → CellFits k o
    → CellFits k (if text_eq i k then some c else o)
fits_if i k c o hc ho = elim (Bool-cases (text_eq i k)) [
  | inl e ↦ rw e (subst (λ j. CellFits j (some c)) ((text_eq_iff i k).0 e) hc)
  | inr e ↦ rw e ho
]

set-fits :
    (i k : String) (c : Cell (Document UploadSession)) (m : Keys String (Document UploadSession))
    → CellFits i (some c)
    → CellFits k (lookup k m)
    → CellFits k (lookup k (set i c.value c.deadline m))
unfolding set
set-fits i k c m hc hm = rw (lookup-insert i k c m) (fits_if i k c (lookup k m) hc hm)

del-fits :
    (i k : String) (m : Keys String (Document UploadSession))
    → CellFits k (lookup k m)
    → CellFits k (lookup k (del i m))
unfolding del
del-fits i k m h =
    rw (lookup-remove i k m) (elim (Bool-cases (text_eq i k)) [ inl e ↦ rw e tt | inr e ↦ rw e h ])

fresh-IsValid :
    (now ttl : ℕ) (s : UploadSession) (r : UploadRegistry)
    → now + ttl * 1000000 ≤ s.expires_at
    → IsValid r
    → IsValid (register_fresh now ttl s r).0
unfolding register_fresh
fresh-IsValid now ttl s r h v k = elim (Bool-cases (ttl == 0)) [
  | inl e ↦ rw e (v k)
  | inr e ↦ rw e (
      set-fits s.stream_id k (record { value = doc s; deadline = now + ttl * 1000000 }) r.sessions
        (refl, h) (v k))
]

resumed-IsValid :
    (now ttl : ℕ) (s : UploadSession) (i : String) (x : UploadSession) (r : UploadRegistry)
    → now + ttl * 1000000 ≤ s.expires_at
    → x.stream_id ≡ i
    → IsValid r
    → IsValid (register_resumed now ttl s i x r).0
unfolding register_resumed
resumed-IsValid now ttl s i x r h own v k = elim (Bool-cases (ttl == 0)) [
  | inl e ↦ rw e (v k)
  | inr e ↦ rw e (
      set-fits i k
        (record {
          value =
              doc (record x { upload_token_hash = s.upload_token_hash; expires_at = s.expires_at });
          deadline = now + ttl * 1000000;
        })
        r.sessions (own, h) (v k))
]

-- What a key that is still there holds fits the key.
live-fits :
    (now : ℕ) (k : String) (o : Option (Cell (Document UploadSession)))
    → CellFits k o
    → CellFits k (live now o)
unfolding live
live-fits now k none h = tt
live-fits now k (some c) h = elim (Bool-cases (ltb now c.deadline)) [
  | inl e ↦ rw e h
  | inr e ↦ rw e tt
]

indexed-IsValid :
    (o : Option (Cell (Document UploadSession))) (now ttl : ℕ) (s : UploadSession) (i : String)
    (r : UploadRegistry)
    → now + ttl * 1000000 ≤ s.expires_at
    → CellFits i o
    → IsValid r
    → IsValid (register_indexed (value_of o) now ttl s i r).0
unfolding register_indexed
indexed-IsValid none now ttl s i r h own v = fresh-IsValid now ttl s _ h v
indexed-IsValid (some c) now ttl s i r h own v = go c.value own
  where
    go :
        (d : Document UploadSession)
        → DocumentFits i c.deadline d
        → IsValid (register_indexed (some d) now ttl s i r).0
    go garbage f = v
    go (doc x) f =
        if_ind (λ (p : UploadRegistry × Result UploadSession). IsValid p.0) x.completed
          (λ _. fresh-IsValid now ttl s _ h v) (λ _. resumed-IsValid now ttl s i x r h f.0 v)

script-IsValid :
    (o : Option String) (now ttl : ℕ) (s : UploadSession) (r : UploadRegistry)
    → now + ttl * 1000000 ≤ s.expires_at
    → IsValid r
    → IsValid (register_script o now ttl s r).0
unfolding register_script get get_cell
script-IsValid none now ttl s r h v = fresh-IsValid now ttl s r h v
script-IsValid (some i) now ttl s r h v =
    indexed-IsValid (live now (lookup i r.sessions)) now ttl s i r h (live-fits now i _ (v i)) v

registered-state :
    (s : UploadSession) (p : UploadRegistry × Result UploadSession) → (registered s p).0 ≡ p.0
registered-state s (r, ok x) = refl
registered-state s (r, err e) = refl

ttl-le : (now t m : ℕ) → (leb t now ≡ false) → now + min (t - now) m / 1000000 * 1000000 ≤ t
ttl-le now t m h = ground arith

-- Registering a session keeps the registry valid, whichever branch the script takes.
pub register_or_get_upload-IsValid :
    (fault : Fault) (now : Time) (s : UploadSession) (r : UploadRegistry)
    → IsValid r
    → IsValid (register_or_get_upload fault now s r).0
unfolding register_or_get_upload
register_or_get_upload-IsValid fault now s r v =
    if_ind (λ (p : UploadRegistry × Result (UploadSession × Bool)). IsValid p.0)
      (leb s.expires_at now) (λ _. v) (λ e. go e fault)
  where
    go : leb s.expires_at now ≡ false → (f : Fault) → IsValid (registered_or_fault f now s r).0
    go e (some x) = v
    go e none =
        subst IsValid (sym (registered-state s _))
          (script-IsValid _ now _ s r (ttl-le now s.expires_at max_duration e) v)

-- Looking a session up keeps the registry valid.
pub lookup_upload-IsValid :
    (fault : Fault) (now : Time) (i : String) (r : UploadRegistry)
    → IsValid r
    → IsValid (lookup_upload fault now i r).0
unfolding lookup_upload
lookup_upload-IsValid (some e) now i r v = v
lookup_upload-IsValid none now i r v = go (get now i r.sessions)
  where
    go : (o : Option (Document UploadSession)) → IsValid (lookup_found now i o r).0
    go none = v
    go (some garbage) = v
    go (some (doc s)) =
        if_ind (λ (p : UploadRegistry × Result UploadSession). IsValid p.0)
          (not (ltb now s.expires_at)) (λ _ k. del-fits i k r.sessions (v k)) (λ _. v)

-- Completing a session keeps the registry valid: the key's expiry stays, and so does the session's.
pub mark_upload_complete-IsValid :
    (fault : Fault) (now : Time) (i reason : String) (r : UploadRegistry)
    → IsValid r
    → IsValid (mark_upload_complete fault now i reason r).0
unfolding mark_upload_complete get_cell
mark_upload_complete-IsValid (some e) now i reason r v = v
mark_upload_complete-IsValid none now i reason r v =
    go (live now (lookup i r.sessions)) (live-fits now i _ (v i))
  where
    doc-case :
        (d : ℕ) (x : Document UploadSession)
        → DocumentFits i d x
        → IsValid (complete_cell i reason (some (record { value = x; deadline = d })) r).0
    doc-case d garbage f k = v k
    doc-case d (doc s) f k =
        set-fits i k (record { value = doc (completed_session reason s); deadline = d }) r.sessions
          f (v k)

    go :
        (o : Option (Cell (Document UploadSession)))
        → CellFits i o
        → IsValid (complete_cell i reason o r).0
    go none f = v
    go (some c) f = doc-case c.deadline c.value f

-- A session that is answered has not expired.
abbrev pub IsFresh : Time → Result UploadSession → Type 0
IsFresh now (ok s) = now < s.expires_at
IsFresh now (err e) = Unit

found-IsFresh :
    (now : Time) (i : String) (o : Option (Document UploadSession)) (r : UploadRegistry)
    → IsFresh now (lookup_found now i o r).1
unfolding lookup_found
found-IsFresh now i none r = tt
found-IsFresh now i (some garbage) r = tt
found-IsFresh now i (some (doc x)) r =
    if_ind (λ (p : UploadRegistry × Result UploadSession). IsFresh now p.1)
      (not (ltb now x.expires_at)) (λ e. tt) (λ e. ground (arith, e))

-- A session that a lookup answers has not expired, whatever the registry holds. On a valid registry an
-- expired one that is still stored is reported as not found, and the registry stays as it is, since
-- Redis has dropped its key by then.
pub lookup_upload_never_expired :
    (now : Time) (i : String) (q r : UploadRegistry) (s : UploadSession) (deadline : Time)
    → IsValid r
    → lookup i r.sessions ≡ some (record { value = doc s; deadline = deadline })
    → s.expires_at ≤ now
    → IsFresh now (lookup_upload none now i q).1
      × (lookup_upload none now i r ≡ (r, err upload_session_not_found))
unfolding lookup_upload get get_cell live
lookup_upload_never_expired now i q r s deadline v e le =
    let fits = subst (CellFits i) e (v i) in
    let gone : ltb now deadline ≡ false = ground (arith, fits.1, le) in
    (found-IsFresh now i (get now i q.sessions) q, rw (e, gone) refl)
