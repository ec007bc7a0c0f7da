-- ===== src/Cache/Pending/Laws.antt =====
-- What a sweep finds: the scheduled streams that are due, and no other.
use vox_streaming.Base.{
  ℕ, ◌+◌, ◌≤◌, ◌<◌, ◌≡◌, refl, Bool, true, false, List, [], ◌∷◌, Option, none, some, String, arith,
  leb, if◌then◌else◌, take, Elem, inl, inr, subst, leb→le, lt→ltb, All, ◌≢◌, ap, take-Elem,
}
use vox_streaming.Base.Text.{text_eq, text_eq_iff}
use vox_streaming.Base.Clock.{Time, unix}
use vox_streaming.Base.Eq.{eq_text}
use vox_streaming.Base.Order.{sort, sort-Elem}
use vox_streaming.Base.Store.{Store, lookup, lookup-insert}
use vox_streaming.Base.Redis.{Document, doc, garbage, get, del, get-set, get-del}
use vox_streaming.Base.Failure.{Result, ok, err, Fault, ok-injective}
use vox_streaming.Cache.Pending.Registry.{
  PendingAssembly, PendingRegistry, SweepFaults, drop_member, drop_entry, due_loop, due,
  scored_up_to, score_before, members, range_by_score, schedule, cancel, pending_assembly_ttl,
  prepend, live_due,
}

scored_up_to-Elem :
    (n : ℕ) (i : String) (s : ℕ) (m : Store String ℕ)
    → Elem (i, s) (scored_up_to n m)
    → Elem (i, s) m × (s ≤ n)
unfolding scored_up_to
scored_up_to-Elem n i s [] h = absurd h
scored_up_to-Elem n i s ((j, t) ∷ m) h = go (scored_up_to-Elem n i s m) (leb t n) refl h
  where
    go :
        (Elem (i, s) (scored_up_to n m) → Elem (i, s) m × (s ≤ n))
        → (b : Bool) → leb t n ≡ b
        → Elem (i, s) (if b then (j, t) ∷ scored_up_to n m else scored_up_to n m)
        → Elem (i, s) ((j, t) ∷ m) × (s ≤ n)
    go ih true e (inl h) = (inl h, rw (ap (λ (p : String × ℕ). p.1) h) (leb→le t n e))
    go ih true e (inr h) = (inr (ih h).0, (ih h).1)
    go ih false e h = (inr (ih h).0, (ih h).1)

members-Elem : (i : String) (m : Store String ℕ) → Elem i (members m) → (s : ℕ) × Elem (i, s) m
members-Elem i [] h = absurd h
members-Elem i ((j, t) ∷ m) (inl e) = (t, inl (ap (λ (k : String). (k, t)) e))
members-Elem i ((j, t) ∷ m) (inr h) = let (s, k) = members-Elem i m h in (s, inr k)

range_by_score-Elem :
    (now limit : ℕ) (i : String) (m : Store String ℕ)
    → Elem i (range_by_score now limit m)
    → (s : ℕ) × Elem (i, s) m × (s ≤ now)
unfolding range_by_score
range_by_score-Elem now limit i m h =
    let (s, k) = members-Elem i (take limit (sort score_before (scored_up_to now m))) h in
    let (found, le) =
      scored_up_to-Elem now i s m
        (sort-Elem score_before (i, s) (scored_up_to now m) (take-Elem (i, s) limit _ k)) in
    (s, found, le)

-- An entry that a later read finds was there before other details were removed.
get-drop_member :
    (fault : Fault) (now : Time) (i j : String) (r : PendingRegistry) {d : Document PendingAssembly}
    → get now j (drop_member fault i r).details ≡ some d
    → get now j r.details ≡ some d
get-drop_member (some e) now i j r h = h
get-drop_member none now i j r h = h

get-drop_entry :
    (fault : Fault) (now : Time) (i j : String) (r : PendingRegistry) {d : Document PendingAssembly}
    → get now j (drop_entry fault i r).details ≡ some d
    → get now j r.details ≡ some d
get-drop_entry (some e) now i j r h = h
get-drop_entry none now i j r h = ground (arith, get-del now i j r.details)

abbrev pub OkAll : (PendingAssembly → Type 0) → Result (List PendingAssembly) → Type 0
OkAll Q (ok ps) = All Q ps
OkAll Q (err e) = Unit

prepend-OkAll :
    (Q : PendingAssembly → Type 0) (p : PendingAssembly)
    (x : PendingRegistry × Result (List PendingAssembly))
    → Q p
    → OkAll Q x.1
    → OkAll Q (prepend p x).1
prepend-OkAll Q p (r, ok ps) q h = (q, h)
prepend-OkAll Q p (r, err e) q h = tt

-- The entries that a loop returns are among those that a property holds of, where it holds of every
-- entry that the registry has under one of the ids.
due_loop-OkAll :
    (Q : PendingAssembly → Type 0) (f : SweepFaults) (now : Time) (is : List String)
    (r : PendingRegistry)
    → ((i : String) (p : PendingAssembly) → Elem i is → get now i r.details ≡ some (doc p) → Q p)
    → OkAll Q (due_loop f now is r).1
unfolding due_loop
due_loop-OkAll Q f now [] r q = tt
due_loop-OkAll Q f now (i ∷ is) r q =
    go (f.load i) refl (get now i r.details) refl
      (due_loop-OkAll Q f now is (drop_member (f.clean i) i r)
        (λ j p m e. q j p (inr m) (get-drop_member (f.clean i) now i j r e)))
      (due_loop-OkAll Q f now is (drop_entry (f.clean i) i r)
        (λ j p m e. q j p (inr m) (get-drop_entry (f.clean i) now i j r e)))
      (due_loop-OkAll Q f now is r (λ j p m e. q j p (inr m) e))
  where
    go :
        (l : Fault)
        → f.load i ≡ l
        → (o : Option (Document PendingAssembly)) → get now i r.details ≡ o
        → OkAll Q (due_loop f now is (drop_member (f.clean i) i r)).1
        → OkAll Q (due_loop f now is (drop_entry (f.clean i) i r)).1
        → OkAll Q (due_loop f now is r).1
        → OkAll Q (due_loop f now (i ∷ is) r).1
    go (some e) el o eo a b c = rw (el, due_loop) tt
    go none el none eo a b c = rw (el, eo, due_loop) a
    go none el (some garbage) eo a b c = rw (el, eo, due_loop) b
    go none el (some (doc p)) eo a b c =
        rw (el, eo, due_loop) (prepend-OkAll Q p (due_loop f now is r) (q i p (inl refl) eo) c)

-- Every entry that a sweep is given was stored under a stream of the sorted set whose due second has
-- come.
pub due_sound :
    (fault : Fault) (f : SweepFaults) (now : Time) (limit : ℕ) (r : PendingRegistry)
    → OkAll
        (λ p.
          (i : String) × (s : ℕ) × Elem (i, s) (live_due now r)
          × (s ≤ unix now)
          × (get now i r.details ≡ some (doc p)))
        (due fault f now limit r).1
unfolding due
due_sound (some e) f now limit r = tt
due_sound none f now limit r =
    due_loop-OkAll _ f now (range_by_score (unix now) limit (live_due now r)) r λ i p m e.
      let (s, k, le) = range_by_score-Elem (unix now) limit i (live_due now r) m in (i, s, k, le, e)

-- Once a stream is cancelled no sweep returns an entry that was stored under it.
pub due-cancel :
    (fault : Fault) (f : SweepFaults) (now : Time) (limit : ℕ) (i : String) (r : PendingRegistry)
    {r' : PendingRegistry}
    → cancel none i r ≡ ok r'
    → OkAll
        (λ p. (j : String) × (i ≢ j) × (get now j r.details ≡ some (doc p)))
        (due fault f now limit r').1
unfolding due cancel
due-cancel (some e) f now limit i r h = tt
due-cancel none f now limit i r {r'} h =
    due_loop-OkAll _ f now (range_by_score (unix now) limit (live_due now r')) r'
      λ j p m e. let k = kept j p e in (j, k.0, k.1)
  where
    kept :
        (j : String) (p : PendingAssembly)
        → get now j r'.details ≡ some (doc p)
        → (i ≢ j) × (get now j r.details ≡ some (doc p))
    kept j p e =
        let e' : get now j (del i r.details) ≡ some (doc p) =
          rw (ap (λ (x : PendingRegistry). get now j x.details) (ok-injective h)) e in
        (
          λ same. ground (arith, get-del now i j r.details, text_eq_iff i j),
          ground (arith, get-del now i j r.details),
        )

-- Scheduling a stream again moves it: its score and details are the new ones, and those of the other
-- streams stay.
pub schedule_moves :
    (now later : Time) (p : PendingAssembly) (j : String) (r : PendingRegistry)
    {r' : PendingRegistry}
    → schedule none now p r ≡ ok r'
    → later < now + pending_assembly_ttl
    → (lookup j (live_due later r')
        ≡ (if text_eq p.stream_id j then some (unix p.due_at) else lookup j (live_due now r)))
      × (get later j r'.details
          ≡ (if text_eq p.stream_id j then some (doc p) else get later j r.details))
unfolding schedule live_due
schedule_moves now later p j r h soon =
    let e = ok-injective h in
    (
      subst
          (λ (x : PendingRegistry).
            lookup j (live_due later x)
            ≡ (if text_eq p.stream_id j then some (unix p.due_at) else lookup j (live_due now r)))
          e
          (rw (lt→ltb later (now + pending_assembly_ttl) soon)
            (lookup-insert p.stream_id j (unix p.due_at) (live_due now r))),
      subst
          (λ (x : PendingRegistry).
            get later j x.details
            ≡ (if text_eq p.stream_id j then some (doc p) else get later j r.details))
          e
          (ground
            (arith, get-set later p.stream_id j (doc p) (now + pending_assembly_ttl) r.details)),
    )
