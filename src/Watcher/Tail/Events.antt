-- ===== src/Watcher/Tail/Events.antt =====
-- hls_watch.go: the events of the two kinds in what was sent.
use vox_streaming.Base.{
  ◌≡◌, refl, ap, inl, inr, Bool, true, false, List, [], ◌∷◌, ◌++◌, String, map, if◌then◌else◌,
  Bool-cases,
}
use vox_streaming.Base.Int.{ℤ}
use vox_streaming.Watcher.Tail.Readings.{Host}
use vox_streaming.Watcher.Tail.Fragments.{HlsFragmentEvent, FragEntry, fragment_event}

-- The events of one kind, in their order.
abbrev pub events_of : Bool → List HlsFragmentEvent → List HlsFragmentEvent
events_of true [] = []
events_of false [] = []
events_of true (e ∷ es) = let rest = events_of true es in if e.is_init then e ∷ rest else rest
events_of false (e ∷ es) = let rest = events_of false es in if e.is_init then rest else e ∷ rest

pub inits-append :
    (xs ys : List HlsFragmentEvent)
    → events_of true (xs ++ ys) ≡ events_of true xs ++ events_of true ys
inits-append [] ys = refl
inits-append (x ∷ xs) ys = elim (Bool-cases x.is_init) [
  | inl e ↦ rw (e, inits-append xs ys)
  | inr e ↦ rw (e, inits-append xs ys)
]

pub fragments-append :
    (xs ys : List HlsFragmentEvent)
    → events_of false (xs ++ ys) ≡ events_of false xs ++ events_of false ys
fragments-append [] ys = refl
fragments-append (x ∷ xs) ys = elim (Bool-cases x.is_init) [
  | inl e ↦ rw (e, fragments-append xs ys)
  | inr e ↦ rw (e, fragments-append xs ys)
]

module _ (host : Host) (hls_dir : String) (epoch : ℤ) where
  pub inits-map :
      (fs : List FragEntry) → events_of true (map (fragment_event host hls_dir epoch) fs) ≡ []
  unfolding fragment_event
  inits-map [] = refl
  inits-map (f ∷ fs) = inits-map fs

  pub fragments-map :
      (fs : List FragEntry)
      → events_of false (map (fragment_event host hls_dir epoch) fs)
        ≡ map (fragment_event host hls_dir epoch) fs
  unfolding fragment_event
  fragments-map [] = refl
  fragments-map (f ∷ fs) = ap (λ l. fragment_event host hls_dir epoch f ∷ l) (fragments-map fs)
