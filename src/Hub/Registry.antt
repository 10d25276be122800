-- ===== src/Hub/Registry.antt =====
-- The registry of live connections (internal/hub/registry/registry.go, type Registry). Its map
-- holds pointers, which the goroutines that serve a connection hold too: `heap` holds the
-- connection objects and an address is an index into it. Each operation runs under the mutex, but for
-- the farewells of `CloseMachine` and `CloseStale`, which come after it.
mod Invariant
pub mod History
mod Current
pub mod Supersede
pub mod Ownership
pub mod Sweep
pub mod Late
use fast_spider.Prelude.{
  ℕ, Bool, true, false, List, [], ◌∷◌, ◌++◌, Option, none, some, String, Map, length, if◌then◌else◌,
  ltb, leb, ◌==◌, get_elem?, modify, lookup, insert, delete, str_eq,
}
use fast_spider.Hub.Connection.{
  Connection, Descriptor, connection_close, mark_lost, write_json, close,
}

pub record Registry : Type 0 where
  pub conns : Map ℕ
  pub heap : List Connection

pub record Snapshot : Type 0 where
  pub machine_id : String
  pub connection_id : String
  pub generation : ℕ
  pub connected_at : ℕ
  pub last_seen_at : ℕ
  pub status : String
  pub capabilities : List Descriptor

unfoldable pub new_registry : Registry
new_registry = record { conns = []; heap = [] }

-- `r.conns[machineID]` followed to its object; `none` is nil.
unfoldable pub deref : List Connection → Option ℕ → Option (ℕ × Connection)
deref heap none = none
deref heap (some a) = elim (get_elem? heap a) [ none ↦ none | some c ↦ some (a, c) ]

unfoldable pub current : Registry → String → Option (ℕ × Connection)
unfolding deref
current r machine_id = deref r.heap (lookup machine_id r.conns)

-- `Register` gets an object that was just made: it stands at the next address. The answer is the
-- address of the connection that was replaced, and whether the new one was accepted.
unfoldable pub register_over :
    Registry → Connection → Option (ℕ × Connection) → Registry × Option ℕ × Bool
register_over r conn none = (
  record { conns = insert conn.machine_id (length r.heap) r.conns; heap = r.heap ++ conn ∷ [] },
  none,
  true,
)
register_over r conn (some (b, old)) =
    if leb conn.generation old.generation
    then (record r { heap = r.heap ++ conn ∷ [] }, none, false)
    else (
      record {
        conns = insert conn.machine_id (length r.heap) r.conns;
        heap = modify (r.heap ++ conn ∷ []) b mark_lost;
      },
      some b,
      true,
    )

unfoldable pub register : Registry → Connection → Registry × Option ℕ × Bool
unfolding register_over
register r conn = register_over r conn (current r conn.machine_id)

unfoldable pub remove_found : Registry → String → ℕ → Option (ℕ × Connection) → Registry
remove_found r machine_id generation none = r
remove_found r machine_id generation (some (b, old)) =
    if old.generation == generation
    then record { conns = delete machine_id r.conns; heap = modify r.heap b mark_lost }
    else r

unfoldable pub remove : Registry → String → ℕ → Registry
unfolding remove_found
remove r machine_id generation = remove_found r machine_id generation (current r machine_id)

-- The change that a caller of the current generation makes to its connection.
unfoldable pub update_current :
    Registry → ℕ → (Connection → Connection) → Option (ℕ × Connection) → Registry × Bool
update_current r generation change none = (r, false)
update_current r generation change (some (b, c)) =
    if c.generation == generation
    then (record r { heap = modify r.heap b change }, true)
    else (r, false)

unfoldable pub touched : String → ℕ → Connection → Connection
touched status now c = record c {
  last_seen_at = now;
  status = if str_eq status "" then c.status else status;
}

unfoldable pub touch : Registry → String → ℕ → String → ℕ → Registry × Bool
unfolding update_current touched
touch r machine_id generation status now =
    update_current r generation (touched status now) (current r machine_id)

-- `cloneCapabilities` copies the descriptors and their action lists; values need no copy.
unfoldable pub clone_capabilities : List Descriptor → List Descriptor
clone_capabilities [] = []
clone_capabilities (item ∷ items) =
    record { actions = item.actions; capability_id = item.capability_id; version = item.version }
    ∷ clone_capabilities items

unfoldable pub set_capabilities : Registry → String → ℕ → List Descriptor → Registry × Bool
unfolding update_current clone_capabilities
set_capabilities r machine_id generation capabilities =
    update_current r generation (λ c. record c { capabilities = clone_capabilities capabilities })
      (current r machine_id)

unfoldable pub snapshot : Connection → Snapshot
unfolding clone_capabilities
snapshot c = record {
  machine_id = c.machine_id;
  connection_id = c.connection_id;
  generation = c.generation;
  connected_at = c.connected_at;
  last_seen_at = c.last_seen_at;
  status = c.status;
  capabilities = clone_capabilities c.capabilities;
}

unfoldable pub get : Registry → String → Option Snapshot
unfolding snapshot
get r machine_id = elim (current r machine_id) [ none ↦ none | some (a, c) ↦ some (snapshot c) ]

-- `List`: one snapshot for each entry of the map.
unfoldable pub snapshots : List Connection → Map ℕ → List Snapshot
unfolding snapshot
snapshots heap [] = []
snapshots heap ((k, a) ∷ m) =
    let rest = snapshots heap m in
    elim (get_elem? heap a) [ none ↦ rest | some c ↦ snapshot c ∷ rest ]

unfoldable pub list : Registry → List Snapshot
unfolding snapshots
list r = snapshots r.heap r.conns

-- The farewell frame, then `Close`; the frame may fail to be written.
unfoldable pub say_goodbye : String → String → Bool → Connection → Connection
unfolding write_json close
say_goodbye code reason written c = close (write_json c (connection_close code reason) written)

-- The connection is looked up under the mutex; the farewell follows after it was given back. The
-- lookup changes nothing, so this is the call in which no other operation comes between the two.
unfoldable pub close_machine : Registry → String → String → String → Bool → Registry × Bool
unfolding say_goodbye
close_machine r machine_id code reason written = elim (current r machine_id) [
  | none ↦ (r, false)
  | some (a, c) ↦ (record r { heap = modify r.heap a (say_goodbye code reason written) }, true)
]

-- The addresses of the connections that were last seen before the given time.
unfoldable pub stale_addresses : List Connection → Map ℕ → ℕ → List ℕ
stale_addresses heap [] before = []
stale_addresses heap ((k, a) ∷ m) before =
    let rest = stale_addresses heap m before in
    elim (get_elem? heap a) [
      | none ↦ rest
      | some c ↦ if ltb c.last_seen_at before then a ∷ rest else rest
    ]

unfoldable pub close_all : List Connection → List ℕ → (ℕ → Bool) → List Connection
unfolding say_goodbye
close_all heap [] written = heap
close_all heap (a ∷ stale) written =
    close_all (modify heap a (say_goodbye "HEARTBEAT_TIMEOUT" "heartbeat timeout" (written a)))
      stale written

-- The connections are collected under the mutex; their farewells follow one by one after it was given
-- back. `written` says of each connection whether its farewell could be written.
unfoldable pub close_stale : Registry → ℕ → (ℕ → Bool) → Registry × ℕ
unfolding stale_addresses close_all
close_stale r before written =
    let stale = stale_addresses r.heap r.conns before in
    (record r { heap = close_all r.heap stale written }, length stale)
