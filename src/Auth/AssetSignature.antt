-- ===== src/Auth/AssetSignature.antt =====
-- pkg/auth/assetsig.go: signatures of live-rewind assets. The MAC belongs to Go's library and is a
-- parameter of the definitions that use it. A signature is what the text "<expUnix>.<sig>" splits
-- into; the text itself is not formed, and seconds count from Go's zero time.
use vox_streaming.Base.{
  ℕ, ◌+◌, ◌-◌, ◌%◌, ◌≤◌, ◌≡◌, true, false, not, String, arith, ltb, if◌then◌else◌,
}
use vox_streaming.Base.Text.{text_eq, text_eq_refl}
use vox_streaming.Base.Clock.{Time, minutes, seconds, unix}
use vox_streaming.Base.Failure.{Result, ok, err, message}

abbrev pub asset_signature_ttl : ℕ
asset_signature_ttl = minutes 30

abbrev pub asset_signature_bucket : ℕ
asset_signature_bucket = minutes 10

-- A text with no dot, one whose expiry is no number, or an expiry and a MAC.
pub data Signature : Type 0 where
  no_dot : Signature
  no_expiry : Signature
  signed : ℕ → String → Signature

-- `now.Truncate(bucket).Add(ttl).Unix()`.
unfoldable pub expiry : Time → ℕ
expiry now = unix (now - now % asset_signature_bucket + asset_signature_ttl)

unfoldable pub sign_asset : (String → ℕ → String) → Time → String → Signature
unfolding expiry
sign_asset asset_mac now stream_id = signed (expiry now) (asset_mac stream_id (expiry now))

unfoldable pub verify_asset : (String → ℕ → String) → Time → String → Signature → Result (Unit {0})
verify_asset asset_mac now stream_id no_dot = err (message "malformed asset signature")
verify_asset asset_mac now stream_id no_expiry = err (message "malformed asset signature expiry")
verify_asset asset_mac now stream_id (signed exp mac) =
    if not (text_eq mac (asset_mac stream_id exp))
    then err (message "invalid asset signature")
    else if ltb exp (unix now)
    then err (message "asset signature expired")
    else ok tt

-- A signature holds for at least twenty minutes after it was made, the bucket's width less than its
-- term, and no longer than a second past the half hour.
pub verify_asset-sign_asset :
    (asset_mac : String → ℕ → String) (now later : Time) (stream_id : String)
    → (later ≤ now + minutes 20
        → verify_asset asset_mac later stream_id (sign_asset asset_mac now stream_id) ≡ ok tt)
      × (now + minutes 30 + seconds 1 ≤ later
          → verify_asset asset_mac later stream_id (sign_asset asset_mac now stream_id)
            ≡ err (message "asset signature expired"))
unfolding verify_asset sign_asset expiry
verify_asset-sign_asset asset_mac now later stream_id = (
  λ h. rw (text_eq_refl (asset_mac stream_id (expiry now)), early h),
  λ h. rw (text_eq_refl (asset_mac stream_id (expiry now)), late h),
)
  where
    early : later ≤ now + minutes 20 → ltb (expiry now) (unix later) ≡ false
    early h = ground arith

    late : now + minutes 30 + seconds 1 ≤ later → ltb (expiry now) (unix later) ≡ true
    late h = ground arith
