-- ===== src/Hub/Connection.antt =====
-- One live Node connection (internal/hub/registry/registry.go, type Connection): its lifetime
-- signal, its table of pending calls, and what reads and writes do to them. The websocket is
-- outside: whether a frame could be written is an argument, and `sent` lists the frames written.
pub mod Calls
pub mod Routing
use fast_spider.Prelude.{
  ℕ, ◌≡◌, ◌≢◌, Bool, true, false, List, [], ◌∷◌, ◌++◌, Option, none, some, String, Map,
  if◌then◌else◌, get_elem?, modify, lookup,
}

-- protocolv1.CapabilityDescriptor
pub record Descriptor : Type 0 where
  pub actions : List String
  pub capability_id : String
  pub version : String

-- protocolv1.CapabilityResponse, by its request id and an uninterpreted rest.
pub record Response : Type 0 where
  pub request_id : String
  pub body : String

pub data Frame : Type 0 where
  request : String → Frame
  connection_close : String → String → Frame

-- A `chan struct{}` that is only ever closed: not made yet, open, or closed.
pub data Signal : Type 0 where
  unmade open_signal shut : Signal

-- `chans` holds the buffers (capacity 1) of the channels that `Call` has made, in the order of
-- their making; `pending` maps a request id to the index of its channel.
pub record Connection : Type 0 where
  pub machine_id : String
  pub connection_id : String
  pub generation : ℕ
  pub connected_at : ℕ
  pub last_seen_at : ℕ
  pub status : String
  pub capabilities : List Descriptor
  pub pending : Map ℕ
  pub chans : List (Option Response)
  pub closed : Signal
  pub close_once : Bool
  pub sent : List Frame

unfoldable pub new_connection : String → String → ℕ → ℕ → Connection
new_connection machine_id connection_id generation now = record {
  machine_id = machine_id;
  connection_id = connection_id;
  generation = generation;
  connected_at = now;
  last_seen_at = now;
  status = "ready";
  capabilities = [];
  pending = [];
  chans = [];
  closed = open_signal;
  close_once = false;
  sent = [];
}

-- `Closed()` and the head of `MarkLost()` make the channel on first use.
unfoldable pub made : Signal → Signal
made unmade = open_signal
made open_signal = open_signal
made shut = shut

unfoldable pub closed_signal : Connection → Connection
unfolding made
closed_signal c = record c { closed = made c.closed }

-- A receive on the signal that does not block.
unfoldable pub is_closed : Signal → Bool
is_closed shut = true
is_closed open_signal = false
is_closed unmade = false

-- `closeOnce.Do(close)`.
unfoldable pub mark_lost : Connection → Connection
unfolding made
mark_lost c =
    let c' = record c { closed = made c.closed } in
    if c'.close_once then c' else record c' { closed = shut; close_once = true }

-- `WriteJSON`: a failed write loses the connection.
unfoldable pub write_json : Connection → Frame → Bool → Connection
unfolding mark_lost
write_json c frame true = record c { sent = c.sent ++ frame ∷ [] }
write_json c frame false = mark_lost c

-- `ReadJSON`: so does a failed read.
unfoldable pub read_json : Connection → Bool → Connection
unfolding mark_lost
read_json c true = c
read_json c false = mark_lost c

unfoldable pub close : Connection → Connection
unfolding mark_lost
close c = mark_lost c

-- The `select` with a `default`: the send succeeds where the buffer is empty.
unfoldable pub try_send : Connection → ℕ → Option (Option Response) → Response → Connection × Bool
try_send c ch (some none) r = (record c { chans = modify c.chans ch (λ _. some r) }, true)
try_send c ch (some (some old)) r = (c, false)
try_send c ch none r = (c, false)

unfoldable pub send_pending : Connection → Option ℕ → Response → Connection × Bool
unfolding try_send
send_pending c none r = (c, false)
send_pending c (some ch) r = try_send c ch (get_elem? c.chans ch) r

-- The test, the lookup under the mutex and the send, which are three steps of the source, in one: only
-- the goroutine that reads the connection delivers to it (internal/hub/server), one response at a time.
unfoldable pub deliver_response : Connection → Response → Connection × Bool
unfolding closed_signal is_closed send_pending
deliver_response c r =
    let c' = closed_signal c in
    if is_closed c'.closed then (c', false) else send_pending c' (lookup r.request_id c'.pending) r

-- A connection made by `new_connection` has its signal, and the `sync.Once` agrees with it.
pub record IsLive (c : Connection) : Type 0 where
  pub signal_made : c.closed ≢ unmade
  pub once_agrees : is_closed c.closed ≡ c.close_once
