-- ===== src/Watcher/Tail/Readings.antt =====
-- segment_watch.go and hls_watch.go: what is read of a file that grows, at one tick after another.
use vox_streaming.Base.{
  ◌≡◌, refl, ap, Bool, List, [], ◌∷◌, ◌++◌, Option, none, some, String, arith, length,
  length-append, leb, map, true, false,
}
use vox_streaming.Base.Clock.{Duration}

-- `strings.TrimSpace`, `filepath.IsAbs`, `filepath.Join`, and `time.Duration(secs * float64(time.Second))`
-- for the `secs` that `strconv.ParseFloat` reads.
pub record Host : Type 0 where
  pub trim_space : String → String
  pub is_abs : String → Bool
  pub join : String → String → String
  pub parse_seconds : String → Option Duration

-- The lines of the file at each tick, `none` where it cannot be opened or read: each reading that there
-- is extends the one before by whole lines.
abbrev pub Grows : List String → List (Option (List String)) → Type 0
Grows raw [] = Unit
Grows raw (none ∷ rs) = Grows raw rs
Grows raw (some next ∷ rs) = ((extra : List String) × (next ≡ raw ++ extra)) × Grows next rs

abbrev pub last_reading : List String → List (Option (List String)) → List String
last_reading raw [] = raw
last_reading raw (none ∷ rs) = last_reading raw rs
last_reading raw (some next ∷ rs) = last_reading next rs

pub map-append {ℓ κ} :
    {A : Type ℓ} {B : Type κ} (f : A → B) (xs ys : List A) → map f (xs ++ ys) ≡ map f xs ++ map f ys
map-append f [] ys = refl
map-append f (x ∷ xs) ys = ap (λ l. f x ∷ l) (map-append f xs ys)

pub longer : {A : Type 0} (xs ys : List A) (y : A) → leb (length (xs ++ y ∷ ys)) (length xs) ≡ false
longer xs ys y = ground (arith, length-append xs (y ∷ ys))

pub longest : {A : Type 0} (xs : List A) → leb (length xs) (length xs) ≡ true
longest xs = ground arith
