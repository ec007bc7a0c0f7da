-- ===== src/Queue/Monitor/Alerts.antt =====
-- Every consumer is watched, and an alert is fired for a reason and not again before its time.
use vox_streaming.Base.{
  ◌≡◌, refl, ◌⊎◌, inl, inr, Bool, true, false, List, [], ◌∷◌, some, String, if◌then◌else◌, Elem,
  ◌∙◌, ap,
}
use vox_streaming.Base.Eq.{eq_text, eq_refl}
use vox_streaming.Base.Store.{Store, lookup, insert, lookup-insert}
use vox_streaming.Queue.Monitor.Defs.{
  ConsumerKey, consumer_key_beq, consumer_key_beq_iff, eq_consumer_key, AlertConfig, override_or,
  build_alert_configs,
}

-- What the loop leaves at a key: the configuration of that key if a consumer to come has it.
build_lem :
    (ks : List ConsumerKey) (d : Store String AlertConfig) (o : Store ConsumerKey AlertConfig)
    (r : Store ConsumerKey AlertConfig) (k : ConsumerKey)
    → (Elem k ks ⊎ (lookup k r ≡ some (override_or (lookup k o) (lookup k.topic d))))
    → lookup k (build_alert_configs ks d o r) ≡ some (override_or (lookup k o) (lookup k.topic d))
unfolding build_alert_configs
build_lem [] d o r k (inl h) = absurd h
build_lem [] d o r k (inr h) = h
build_lem (x ∷ xs) d o r k h =
    build_lem xs d o (insert x (override_or (lookup x o) (lookup x.topic d)) r) k (step h)
  where
    cfg : AlertConfig
    cfg = override_or (lookup x o) (lookup x.topic d)

    at_key :
        (b : Bool)
        → consumer_key_beq x k ≡ b
        → lookup k r ≡ some (override_or (lookup k o) (lookup k.topic d))
        → (if b then some cfg else lookup k r) ≡ some (override_or (lookup k o) (lookup k.topic d))
    at_key true e h =
        ap (λ (y : ConsumerKey). some (override_or (lookup y o) (lookup y.topic d)))
          ((consumer_key_beq_iff x k).0 e)
    at_key false e h = h

    step :
        Elem k (x ∷ xs) ⊎ (lookup k r ≡ some (override_or (lookup k o) (lookup k.topic d)))
        → Elem k xs
          ⊎ (lookup k (insert x cfg r) ≡ some (override_or (lookup k o) (lookup k.topic d)))
    step (inl (inl e)) =
        inr (rw (← e, lookup-insert k k (override_or (lookup k o) (lookup k.topic d)) r, eq_refl k))
    step (inl (inr e)) = inl e
    step (inr e) = inr (lookup-insert x k cfg r ∙ at_key (consumer_key_beq x k) refl e)

-- Every consumer has thresholds: its override, else those of its topic, else the fallback.
pub build_alert_configs_covers :
    (ks : List ConsumerKey) (d : Store String AlertConfig) (o : Store ConsumerKey AlertConfig)
    (k : ConsumerKey)
    → Elem k ks
    → lookup k (build_alert_configs ks d o []) ≡ some (override_or (lookup k o) (lookup k.topic d))
build_alert_configs_covers ks d o k h = build_lem ks d o [] k (inl h)
