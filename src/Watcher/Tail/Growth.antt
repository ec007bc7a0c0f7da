-- ===== src/Watcher/Tail/Growth.antt =====
-- hls_watch.go: the scan of a playlist that has grown finds what it found before, and more.
use vox_streaming.Base.{
  ◌≡◌, refl, sym, ap, ◌∙◌, subst, Bool, true, false, ◌&&◌, List, [], ◌∷◌, ◌++◌, String, arith,
  if◌then◌else◌,
}
use vox_streaming.Base.Text.{is_empty}
use vox_streaming.Watcher.Tail.Readings.{Host}
use vox_streaming.Watcher.Tail.Fragments.{FragEntry, Playlist, scan_line, scan}
use text.Mathlib.Text.{starts_with}
use mathlib.Core.List.{append-nil, append_assoc}

-- A playlist that was read further: it has the fragments it had and perhaps more, and the init segment
-- that it has stays.
abbrev pub Further : Playlist → Playlist → Type 0
Further p q =
    ((more : List FragEntry) × (q.frags ≡ p.frags ++ more))
    × (is_empty p.init_uri ≡ false → q.init_uri ≡ p.init_uri)

pub Further-itself : (p : Playlist) → Further p p
Further-itself p = (([], sym (append-nil p.frags)), λ h. refl)

pub Further-trans : (p q r : Playlist) → Further p q → Further q r → Further p r
Further-trans p q r a b = (
  (a.0.0 ++ b.0.0, b.0.1 ∙ (ap (λ l. l ++ b.0.0) a.0.1 ∙ append_assoc p.frags a.0.0 b.0.0)),
  λ h. b.1 (subst (λ u. is_empty u ≡ false) (sym (a.1 h)) h) ∙ a.1 h,
)

abbrev pub IsTrue : Bool → Type 0
IsTrue true = Unit
IsTrue false = ⊥

pub if_keeps {ℓ} :
    {A : Type 0} (P : A → Type ℓ) (b : Bool) (x y : A)
    → (b ≡ true → P x)
    → (b ≡ false → P y)
    → P (if b then x else y)
if_keeps P true x y f g = f refl
if_keeps P false x y f g = g refl

pub apart : (b : Bool) → b ≡ true → b ≡ false → ⊥
apart b h e = subst IsTrue (sym h ∙ e) tt

first_map : (a b : Bool) → (a && b) ≡ true → a ≡ true
first_map a b h = ground arith

scan_line-Further : (host : Host) (l : String) (p : Playlist) → Further p (scan_line host l p)
unfolding scan_line
scan_line-Further host l p =
    let line = host.trim_space l in
    if_keeps (Further p) (is_empty line) _ _ (λ e. Further-itself p)
      (λ e.
        if_keeps (Further p) (is_empty p.init_uri && starts_with line "#EXT-X-MAP:") _ _
          (λ e. (
            ([], sym (append-nil p.frags)),
            λ h. absurd (apart (is_empty p.init_uri) (first_map _ _ e) h),
          ))
          (λ e.
            if_keeps (Further p) (starts_with line "#EXTINF:") _ _ (λ e. Further-itself p)
              (λ e.
                if_keeps (Further p) (starts_with line "#") _ _ (λ e. Further-itself p)
                  (λ e. ((_, refl), λ h. refl)))))

pub scan-Further : (host : Host) (ls : List String) (p : Playlist) → Further p (scan host ls p)
unfolding scan
scan-Further host [] p = Further-itself p
scan-Further host (l ∷ ls) p =
    Further-trans p (scan_line host l p) (scan host ls (scan_line host l p))
      (scan_line-Further host l p) (scan-Further host ls (scan_line host l p))

pub scan-append :
    (host : Host) (xs ys : List String) (p : Playlist)
    → scan host (xs ++ ys) p ≡ scan host ys (scan host xs p)
unfolding scan
scan-append host [] ys p = refl
scan-append host (x ∷ xs) ys p = scan-append host xs ys (scan_line host x p)
