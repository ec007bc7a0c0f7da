-- ===== src/Handler/Segments/Stored.antt =====
-- What the registry holds of a session once `CreateSession` has registered it.
use vox_streaming.Base.{
  ℕ, ◌+◌, ◌-◌, ◌*◌, ◌/◌, ◌<◌, ◌≤◌, ◌==◌, ◌≡◌, refl, sym, subst, Bool, false, Option, none, some,
  String, arith, if_ind, leb, ltb, min,
}
use vox_streaming.Base.Eq.{eq_text}
use vox_streaming.Base.Clock.{Time}
use vox_streaming.Base.Store.{lookup, lookup-insert}
use vox_streaming.Base.Text.{text_eq_refl}
use vox_streaming.Base.Redis.{Cell, Document, doc, garbage, get, get_cell, live, value_of, set}
use vox_streaming.Base.Failure.{Result, ok, err, Fault}
use vox_streaming.Cache.Upload.{
  UploadSession, UploadRegistry, upload_session_index_key, register_fresh, register_resumed,
  register_indexed, register_script, registered, registered_or_fault, register_or_get_upload,
  max_duration, eq_upload_key, IsValid, CellFits, DocumentFits,
}

-- What registering a session answers and what is stored then, with its time to live in milliseconds.
abbrev pub IsOpen : Time → ℕ → UploadSession → UploadRegistry × Result UploadSession → Type 0
IsOpen now ttl new (r, err e) = Unit
IsOpen now ttl new (r, ok s) =
    (lookup s.stream_id r.sessions
      ≡ some (record { value = doc s; deadline = now + ttl * 1000000 }))
    × (now < now + ttl * 1000000)
    × (s.completed ≡ false)
    × (s.upload_token_hash ≡ new.upload_token_hash)
    × (s.expires_at ≡ new.expires_at)

stored :
    (i : String) (d : Document UploadSession) (deadline : Time) (r : UploadRegistry)
    → lookup i (set i d deadline r.sessions) ≡ some (record { value = d; deadline = deadline })
unfolding set
stored i d deadline r = rw (lookup-insert i i _ r.sessions, text_eq_refl i) refl

fresh-IsOpen :
    (now ttl : ℕ) (new : UploadSession) (r : UploadRegistry)
    → new.completed ≡ false
    → IsOpen now ttl new (register_fresh now ttl new r)
unfolding register_fresh
fresh-IsOpen now ttl new r c =
    if_ind (IsOpen now ttl new) (ttl == 0) (λ e. tt)
      (λ e.
        (stored new.stream_id (doc new) (now + ttl * 1000000) r, ground (arith, e), c, refl, refl))

resumed-IsOpen :
    (now ttl : ℕ) (new old : UploadSession) (i : String) (r : UploadRegistry)
    → old.stream_id ≡ i
    → old.completed ≡ false
    → IsOpen now ttl new (register_resumed now ttl new i old r)
unfolding register_resumed
resumed-IsOpen now ttl new old i r own c =
    if_ind (IsOpen now ttl new) (ttl == 0) (λ e. tt)
      (λ e. (
        subst
            (λ j.
              lookup j (
                set i
                  (doc (record old {
                    upload_token_hash = new.upload_token_hash;
                    expires_at = new.expires_at;
                  }))
                  (now + ttl * 1000000) r.sessions)
              ≡ some (record {
                value = doc (record old {
                  upload_token_hash = new.upload_token_hash;
                  expires_at = new.expires_at;
                });
                deadline = now + ttl * 1000000;
              }))
            (sym own) (stored i _ (now + ttl * 1000000) r),
        ground (arith, e),
        c,
        refl,
        refl,
      ))

-- A session that is read stands under its own stream.
abbrev StandsUnder : String → Option (Document UploadSession) → Type 0
StandsUnder i none = Unit
StandsUnder i (some garbage) = Unit
StandsUnder i (some (doc s)) = s.stream_id ≡ i

document-StandsUnder :
    (i : String) (n : ℕ) (d : Document UploadSession) → DocumentFits i n d → StandsUnder i (some d)
document-StandsUnder i n garbage f = tt
document-StandsUnder i n (doc s) f = f.0

live-StandsUnder :
    (now : Time) (i : String) (o : Option (Cell (Document UploadSession)))
    → CellFits i o
    → StandsUnder i (value_of (live now o))
unfolding live
live-StandsUnder now i none f = tt
live-StandsUnder now i (some c) f =
    if_ind (λ o. StandsUnder i (value_of o)) (ltb now c.deadline)
      (λ _. document-StandsUnder i c.deadline c.value f) (λ _. tt)

get-StandsUnder :
    (now : Time) (i : String) (r : UploadRegistry)
    → IsValid r
    → StandsUnder i (get now i r.sessions)
unfolding get get_cell
get-StandsUnder now i r v = live-StandsUnder now i (lookup i r.sessions) (v i)

indexed-IsOpen :
    (o : Option (Document UploadSession)) (now ttl : ℕ) (new : UploadSession) (i : String)
    (r : UploadRegistry)
    → StandsUnder i o
    → new.completed ≡ false
    → IsOpen now ttl new (register_indexed o now ttl new i r)
unfolding register_indexed
indexed-IsOpen none now ttl new i r own c = fresh-IsOpen now ttl new _ c
indexed-IsOpen (some garbage) now ttl new i r own c = tt
indexed-IsOpen (some (doc old)) now ttl new i r own c =
    if_ind (IsOpen now ttl new) old.completed (λ _. fresh-IsOpen now ttl new _ c)
      (λ e. resumed-IsOpen now ttl new old i r own e)

script-IsOpen :
    (o : Option String) (now ttl : ℕ) (new : UploadSession) (r : UploadRegistry)
    → IsValid r
    → new.completed ≡ false
    → IsOpen now ttl new (register_script o now ttl new r)
unfolding register_script
script-IsOpen none now ttl new r v c = fresh-IsOpen now ttl new r c
script-IsOpen (some i) now ttl new r v c =
    indexed-IsOpen (get now i r.sessions) now ttl new i r (get-StandsUnder now i r v) c

-- The same of the whole operation.
-- A session is kept to the last whole millisecond before it expires, or before the longest duration from
-- now.
abbrev pub KeptUntil : Time → UploadSession → Time → Type 0
KeptUntil now s deadline =
    (now < deadline)
    × (deadline ≤ s.expires_at)
    × (min s.expires_at (now + max_duration) < deadline + 1000000)

abbrev pub IsOpened : Time → UploadSession → UploadRegistry × Result (UploadSession × Bool) → Type 0
IsOpened now new (r, err e) = Unit
IsOpened now new (r, ok (s, created)) =
    (d : Time) × (lookup s.stream_id r.sessions ≡ some (record { value = doc s; deadline = d }))
    × KeptUntil now new d
    × (s.completed ≡ false)
    × (s.upload_token_hash ≡ new.upload_token_hash)
    × (s.expires_at ≡ new.expires_at)

kept_until :
    (now t m : ℕ)
    → (leb t now ≡ false)
    → (now + min (t - now) m / 1000000 * 1000000 ≤ t)
      × (min t (now + m) < now + min (t - now) m / 1000000 * 1000000 + 1000000)
kept_until now t m h = (ground arith, ground arith)

registered-IsOpened :
    (now : Time) (new : UploadSession) (x : UploadRegistry × Result UploadSession)
    → leb new.expires_at now ≡ false
    → IsOpen now (min (new.expires_at - now) max_duration / 1000000) new x
    → IsOpened now new (registered new x)
registered-IsOpened now new (r, err e) l o = tt
registered-IsOpened now new (r, ok s) l o =
    let k = kept_until now new.expires_at max_duration l in (_, o.0, (o.1, k.0, k.1), o.2, o.3, o.4)

pub register_or_get_upload-IsOpened :
    (fault : Fault) (now : Time) (new : UploadSession) (r : UploadRegistry)
    → IsValid r
    → new.completed ≡ false
    → IsOpened now new (register_or_get_upload fault now new r)
unfolding register_or_get_upload registered_or_fault
register_or_get_upload-IsOpened fault now new r v c =
    if_ind (IsOpened now new) (leb new.expires_at now) (λ _. tt) (λ e. go fault e)
  where
    go :
        (f : Fault)
        → leb new.expires_at now ≡ false
        → IsOpened now new (registered_or_fault f now new r)
    go (some e) l = tt
    go none l = registered-IsOpened now new _ l (
        script-IsOpen (get now (upload_session_index_key new) r.index) now
          (min (new.expires_at - now) max_duration / 1000000) new r v c)
