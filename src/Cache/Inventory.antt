-- ===== src/Cache/Inventory.antt =====
-- internal/infrastructure/cache/inventory.go: what the client says that a stream contains.
use vox_streaming.Base.{
  ◌+◌, ◌≤◌, ◌<◌, ◌≡◌, Bool, List, Option, none, some, String, arith, if◌then◌else◌,
}
use vox_streaming.Base.Int.{ℤ}
use vox_streaming.Base.Clock.{Time, after}
use vox_streaming.Base.Eq.{eq_text}
use vox_streaming.Base.Redis.{Keys, Document, doc, garbage, get, set, get-set_self}
use vox_streaming.Base.Failure.{Result, ok, err, Fault, check_as, message, ◌>>=◌, ◌>>◌}
use vox_streaming.Cache.Segment.{segment_ttl}

pub record DeclaredSegment : Type 0 where
  pub seq : ℤ
  pub started_at : Time
  pub ended_at : Time
  pub sha256 : String
  pub size_bytes : ℤ
  pub frames_written : ℤ

pub record StreamInventory : Type 0 where
  pub stream_id : String
  pub complete : Bool
  pub declared_at : Time
  pub segments : List DeclaredSegment

abbrev pub InventoryRegistry : Type 0
InventoryRegistry = Keys String (Document StreamInventory)

abbrev pub decode_inventory : Option (Document StreamInventory) → Result (Option StreamInventory)
decode_inventory none = ok none
decode_inventory (some (doc i)) = ok (some i)
decode_inventory (some garbage) = err (message "unmarshal inventory")

-- `Get`; the fault is one that is not `redis.Nil`.
unfoldable pub find_inventory :
    Fault → Time → String → InventoryRegistry → Result (Option StreamInventory)
find_inventory fault now stream_id r = do
  check_as "load inventory" fault
  decode_inventory (get now stream_id r)

-- The guard of `Put`: a copy that was declared before the one at hand is dropped.
unfoldable pub put_over :
    Fault
    → Time
    → StreamInventory
    → Option StreamInventory
    → InventoryRegistry
    → Result InventoryRegistry
put_over fault now inventory none r = do
  check_as "store inventory" fault
  ok (set inventory.stream_id (doc inventory) (now + segment_ttl) r)
put_over fault now inventory (some existing) r =
    if after existing.declared_at inventory.declared_at
    then ok r
    else (check_as "store inventory" fault
        >> ok (set inventory.stream_id (doc inventory) (now + segment_ttl) r))

-- `Put`, with the faults of its read and its write.
unfoldable pub put :
    Fault → Fault → Time → StreamInventory → InventoryRegistry → Result InventoryRegistry
unfolding put_over find_inventory
put get_fault set_fault now inventory r = do
  existing ← find_inventory get_fault now inventory.stream_id r
  put_over set_fault now inventory existing r

-- The declaration that two racing uploads should leave: the later one, the second in a tie.
abbrev pub newer : StreamInventory → StreamInventory → StreamInventory
newer a b = if after a.declared_at b.declared_at then a else b

-- While an inventory is held, a declaration leaves the newer of the two, never the older.
pub put-find :
    (now later : Time) (inventory existing : StreamInventory) (r : InventoryRegistry)
    → get now inventory.stream_id r ≡ some (doc existing)
    → get later inventory.stream_id r ≡ some (doc existing)
    → later < now + segment_ttl
    → (put none none now inventory r >>= find_inventory none later inventory.stream_id)
      ≡ ok (some (newer existing inventory))
unfolding put put_over find_inventory
put-find now later inventory existing r h k soon =
    ground
      (arith, get-set_self later inventory.stream_id (doc inventory) (now + segment_ttl) r soon)

-- Two declarations of one stream in either order leave the same inventory, unless their times tie.
pub put_race :
    (now later : Time) (a b : StreamInventory) (r : InventoryRegistry)
    → a.stream_id ≡ b.stream_id
    → a.declared_at < b.declared_at
    → get now a.stream_id r ≡ none
    → later < now + segment_ttl
    → now ≤ later
    → ((put none none now a r >>= put none none now b) >>= find_inventory none later a.stream_id)
      ≡ ((put none none now b r >>= put none none now a) >>= find_inventory none later a.stream_id)
unfolding put put_over find_inventory
put_race now later a b r same older empty soon forward = ground (
  arith,
  get-set_self now a.stream_id (doc a) (now + segment_ttl) r,
  get-set_self now b.stream_id (doc b) (now + segment_ttl) r,
  get-set_self later b.stream_id (doc b) (now + segment_ttl) r,
  get-set_self later b.stream_id (doc b) (now + segment_ttl)
      (set a.stream_id (doc a) (now + segment_ttl) r),
)
