-- ===== src/Handler/Segments/Requests.antt =====
-- handler.go: requests, answers and chains of checks. Go's parsers, its encodings and its hash, and the
-- libraries for UUIDs and tokens, are parameters.
use vox_streaming.Base.{ℕ, Bool, true, false, List, Option, none, some, String}
use vox_streaming.Base.Int.{ℤ}
use vox_streaming.Base.Clock.{Time}
use vox_streaming.Base.Failure.{Result}
use vox_streaming.Auth.Claims.{StreamClaims}
use vox_streaming.Cache.Inventory.{DeclaredSegment}
use vox_streaming.Usecase.Segments.{Hashing}

-- The bytes of a body, and whether reading on after them fails.
pub record Body : Type 0 where
  pub bytes : List ℕ
  pub broken : Bool

pub record Request : Type 0 where
  pub authorization : String
  pub stream_id : String
  pub seq : String
  pub started_at : String
  pub ended_at : String
  pub content_type : String
  pub content_length : ℤ
  pub segment_sha256 : String
  pub body : Body

pub record InventoryRequest : Type 0 where
  pub complete : Bool
  pub declared_at : Time
  pub segments : List DeclaredSegment

-- A token that was parsed, with the moment at which it expires.
pub record Library : Type 0 where
  pub hashing : Hashing
  pub trim_space : String → String
  pub to_lower : String → String
  pub equal_fold : String → String → Bool
  pub is_uuid : String → Bool
  pub parse_int : String → Option ℤ
  pub parse_time : String → Option Time
  pub media_type : String → Option String
  pub sha256_bytes : List ℕ → List ℕ
  pub hex_encode : List ℕ → String
  pub base64 : List ℕ → String
  pub parse_token : String → Result StreamClaims
  pub token_expires : StreamClaims → Time
  pub decode_stop_reason : List ℕ → Option String
  pub decode_inventory : Body → Option InventoryRequest
  pub decode_stream_type : Body → Option String

pub data Response (A : Type 0) : Type 0 where
  refused : ℕ → String → Response A
  no_content : Response A
  json : ℕ → A → Response A

-- The outcome of a check: an answer that ends the request, or what it goes on with.
pub data Checked {ℓ} (A : Type ℓ) : Type ℓ where
  stop : ℕ → String → Checked A
  go_on : A → Checked A

infixl 5 ◌>>=◌
abbrev pub ◌>>=◌ {κ ℓ} : {V : Type κ} {W : Type ℓ} → Checked V → (V → Checked W) → Checked W
stop status text >>= next = stop status text
go_on value >>= next = next value

infixl 5 ◌>>◌
abbrev pub ◌>>◌ {ℓ} : {W : Type ℓ} → Checked (Unit {0}) → Checked W → Checked W
checked >> following = checked >>= (λ _. following)

abbrev pub require : Bool → ℕ → String → Checked (Unit {0})
require true status text = go_on tt
require false status text = stop status text

abbrev pub parsed {ℓ} : {A : Type ℓ} → Option A → ℕ → String → Checked A
parsed none status text = stop status text
parsed (some a) status text = go_on a
