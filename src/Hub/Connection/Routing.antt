-- ===== src/Hub/Connection/Routing.antt =====
-- Connection.Call and DeliverResponse together (internal/hub/registry/registry.go): which call a
-- reply reaches, and what `pending` holds, over every interleaving.
mod Effects
mod Sound
mod Moves
mod Arrivals
use fast_spider.Prelude.{
  ℕ, zero, suc, ◌+◌, ◌<◌, ◌≡◌, ◌≢◌, refl, sym, ap, ◌∙◌, ◌↔◌, inl, inr, Bool, true, false, List, [],
  ◌∷◌, ◌++◌, Option, none, some, String, arith, length, length-append, length-modify, get_elem?,
  modify, lookup, insert, delete, lookup-insert, lookup-insert_self, lookup-delete, eq_iff, eq_refl,
  Option-cases, Bool-cases, get_elem?-lt, get_elem?-append_last, get_elem?-append_left,
  get_elem?-modify_self, get_elem?-modify_ne, str_eq, if◌then◌else◌,
}
use native.Mathlib.Decide.{ℕ_discrete}
use fast_spider.Hub.Connection.{
  Connection, Response, closed_signal, is_closed, mark_lost, deliver_response, send_pending,
  try_send, new_connection,
}
use fast_spider.Hub.Connection.Calls.{
  Call, Phase, returned, replied, Ready, begin_call, advance, Link, Event, begins, steps, delivers,
  loses, link_advance, link_step, link_run,
}
pub use Effects.{in_flight}
use Effects.{SameReplies, Effect, stays, enters, leaves, takes, mark_lost_tables, advance-Effect}
use Sound.{call_at, pending_at, IsSound, IsSound-same, replaced, unchanged_replies, moved-IsSound}
use Moves.{Effect-IsSound}
use Arrivals.{begins-IsSound, delivers-IsSound}

link_advance-IsSound :
    (l : Link) (i : ℕ) (o : Option Call) (ready : Ready)
    → call_at l i ≡ o
    → IsSound l
    → IsSound (link_advance l i o ready)
unfolding link_advance
link_advance-IsSound l i none ready e s = s
link_advance-IsSound l i (some k) ready e s =
    Effect-IsSound l i k e s _ _ (advance-Effect l.conn k ready)

link_step-IsSound : (l : Link) (e : Event) → IsSound l → IsSound (link_step l e)
unfolding link_step
link_step-IsSound l (begins id) s = begins-IsSound l id s
link_step-IsSound l (steps i ready) s = link_advance-IsSound l i _ ready refl s
link_step-IsSound l (delivers r) s = delivers-IsSound l r s
link_step-IsSound l loses s =
    IsSound-same l (mark_lost l.conn) (mark_lost_tables l.conn).0 (mark_lost_tables l.conn).1 s

link_run-IsSound : (l : Link) (es : List Event) → IsSound l → IsSound (link_run l es)
unfolding link_run
link_run-IsSound l [] s = s
link_run-IsSound l (e ∷ es) s = link_run-IsSound (link_step l e) es (link_step-IsSound l e s)

-- A connection as `NewConnection` makes it, with no call on it yet.
abbrev pub fresh_link : String → String → ℕ → ℕ → Link
fresh_link machine_id connection_id generation now = record {
  conn = new_connection machine_id connection_id generation now;
  calls = [];
}

fresh_link-IsSound :
    (machine_id connection_id : String) (generation now : ℕ)
    → IsSound (fresh_link machine_id connection_id generation now)
unfolding new_connection lookup
fresh_link-IsSound m c g n = record {
  aligned = refl;
  indexed = λ i k h. absurd (ground arith);
  held = λ i k h f. absurd (ground arith);
  owned = λ id ch h. absurd (ground arith);
  buffered = λ i k r h f. absurd (ground arith);
  answered = λ i k r h f. absurd (ground arith);
}

module _ (machine_id connection_id : String) (generation now : ℕ) (es : List Event) where
  abbrev pub after : Link
  after = link_run (fresh_link machine_id connection_id generation now) es

  after-IsSound : IsSound after
  after-IsSound = link_run-IsSound _ es (fresh_link-IsSound machine_id connection_id generation now)

  -- Whatever the goroutines' order, a call that returned a reply returned one with its own request
  -- id.
  pub reply_reaches_caller :
      (i : ℕ) (k : Call) (r : Response)
      → call_at after i ≡ some k
      → k.phase ≡ returned (replied r)
      → r.request_id ≡ k.request_id
  reply_reaches_caller = after-IsSound.answered

  -- Whatever the goroutines' order, `pending` maps a request id to a channel exactly when the call
  -- with that channel and that id is in flight: no entry outlives its call, none is missing.
  pub pending_iff_in_flight :
      (id : String) (ch : ℕ)
      → (lookup id after.conn.pending ≡ some ch) ↔ (
          (k : Call) × (call_at after ch ≡ some k)
          × (k.request_id ≡ id)
          × (in_flight k.phase ≡ true))
  pending_iff_in_flight id ch = (
    after-IsSound.owned id ch,
    λ (k, found, same_id, f). rw (← same_id) (after-IsSound.held ch k found f),
  )
