-- ===== src/Hub/Connection/Calls.antt =====
-- Connection.Call (internal/hub/registry/registry.go) as the steps between which other goroutines
-- run: the call's own steps, deliveries by the read loop and losses interleave as a list of events.
-- A write that ends after its call has returned is left out of `sent`; if it fails it is a loss.
use fast_spider.Prelude.{
  ℕ, Bool, true, false, List, [], ◌∷◌, ◌++◌, Option, none, some, String, length, if◌then◌else◌,
  get_elem?, modify, lookup, insert, delete,
}
use fast_spider.Hub.Connection.{
  Connection, Response, request, closed_signal, is_closed, mark_lost, deliver_response,
}

pub data Outcome : Type 0 where
  replied : Response → Outcome
  connection_lost duplicate_request context_ended write_failed : Outcome

-- Where a call stands: past the first check of the signal; its channel is in `pending`; its request
-- is being written; it waits for the reply; it has returned.
pub data Phase : Type 0 where
  entered registered writing waiting : Phase
  returned : Outcome → Phase

pub record Call : Type 0 where
  pub request_id : String
  pub chan : ℕ
  pub phase : Phase

-- What a `select` finds ready: the write's result with the state of the context, the reply, the
-- signal, the context.
pub data Ready : Type 0 where
  proceed : Ready
  write_done : Bool → Bool → Ready
  reply_ready closed_ready context_ready : Ready

-- The head of `Call`: it makes its channel and checks the signal.
unfoldable pub begin_call : Connection → String → Connection × Call
unfolding closed_signal is_closed
begin_call c id =
    let c' = closed_signal c in
    let ch = length c'.chans in
    (
      record c' { chans = c'.chans ++ none ∷ [] },
      record {
        request_id = id;
        chan = ch;
        phase = if is_closed c'.closed then returned connection_lost else entered;
      },
    )

-- The duplicate check and the entry into `pending`, under its mutex.
unfoldable pub enter_pending : Connection → Call → Option ℕ → Connection × Call
enter_pending c k (some other) = (c, record k { phase = returned duplicate_request })
enter_pending c k none =
    (record c { pending = insert k.request_id k.chan c.pending }, record k { phase = registered })

-- Every return after that runs the deferred `delete`.
unfoldable pub leave : Connection → Call → Outcome → Connection × Call
leave c k o =
    (record c { pending = delete k.request_id c.pending }, record k { phase = returned o })

unfoldable pub after_write : Connection → Call → Bool → Bool → Connection × Call
unfolding leave is_closed mark_lost
after_write c k true false =
    (record c { sent = c.sent ++ request k.request_id ∷ [] }, record k { phase = waiting })
after_write c k true true =
    leave (record c { sent = c.sent ++ request k.request_id ∷ [] }) k context_ended
after_write c k false true = leave (mark_lost c) k context_ended
after_write c k false false =
    let c' = mark_lost c in
    leave c' k (if is_closed c'.closed then connection_lost else write_failed)

-- `case <-closed`, which is ready only once the signal is closed.
unfoldable pub on_closed : Connection → Call → Connection × Call
unfolding leave is_closed
on_closed c k = if is_closed c.closed then leave c k connection_lost else (c, k)

-- `case response := <-ch` empties the buffer.
unfoldable pub on_reply : Connection → Call → Option (Option Response) → Connection × Call
unfolding leave
on_reply c k (some (some r)) =
    leave (record c { chans = modify c.chans k.chan (λ _. none) }) k (replied r)
on_reply c k (some none) = (c, k)
on_reply c k none = (c, k)

-- One step of a call. A case that is not ready leaves everything as it is.
unfoldable pub advance_from : Phase → Connection → Call → Ready → Connection × Call
unfolding enter_pending after_write on_closed on_reply
advance_from entered c k proceed = enter_pending c k (lookup k.request_id c.pending)
advance_from registered c k proceed =
    if is_closed c.closed then leave c k connection_lost else (c, record k { phase = writing })
advance_from writing c k (write_done written cancelled) = after_write c k written cancelled
advance_from writing c k closed_ready = on_closed c k
advance_from writing c k context_ready = leave c k context_ended
advance_from waiting c k reply_ready = on_reply c k (get_elem? c.chans k.chan)
advance_from waiting c k closed_ready = on_closed c k
advance_from waiting c k context_ready = leave c k context_ended
advance_from _ c k _ = (c, k)

unfoldable pub advance : Connection → Call → Ready → Connection × Call
unfolding advance_from
advance c k ready = advance_from k.phase c k ready

-- A connection with all calls ever made on it, in the order of their channels.
pub record Link : Type 0 where
  pub conn : Connection
  pub calls : List Call

pub data Event : Type 0 where
  begins : String → Event
  steps : ℕ → Ready → Event
  delivers : Response → Event
  loses : Event

unfoldable pub link_advance : Link → ℕ → Option Call → Ready → Link
unfolding advance
link_advance l i none ready = l
link_advance l i (some k) ready =
    let (c', k') = advance l.conn k ready in
    record { conn = c'; calls = modify l.calls i (λ _. k') }

unfoldable pub link_step : Link → Event → Link
unfolding begin_call link_advance
link_step l (begins id) =
    let (c', k) = begin_call l.conn id in record { conn = c'; calls = l.calls ++ k ∷ [] }
link_step l (steps i ready) = link_advance l i (get_elem? l.calls i) ready
link_step l (delivers r) = record l { conn = (deliver_response l.conn r).0 }
link_step l loses = record l { conn = mark_lost l.conn }

unfoldable pub link_run : Link → List Event → Link
link_run l [] = l
link_run l (e ∷ es) = link_run (link_step l e) es
