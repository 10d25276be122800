-- ===== src/Hub/Connection/Routing/Effects.antt =====
-- What one step of a call does to the table of pending calls and to the buffers.
use fast_spider.Prelude.{
  ℕ, ◌≡◌, refl, ap, Bool, true, false, Option, none, some, arith, inl, inr, Bool-cases, get_elem?,
  modify, lookup, insert, delete, if◌then◌else◌,
}
use fast_spider.Hub.Connection.{Connection, Response, is_closed, mark_lost}
use fast_spider.Hub.Connection.Calls.{
  Call, Phase, entered, registered, writing, waiting, returned, Outcome, replied, connection_lost,
  write_failed, Ready, proceed, write_done, reply_ready, closed_ready, context_ready, enter_pending,
  leave, after_write, on_closed, on_reply, advance_from, advance,
}

-- The call's entry stands in `pending`.
abbrev pub in_flight : Phase → Bool
in_flight entered = false
in_flight registered = true
in_flight writing = true
in_flight waiting = true
in_flight (returned o) = false

-- The call has not just taken a reply.
abbrev pub SameReplies : Phase → Phase → Type 0
SameReplies p q = (r : Response) → q ≡ returned (replied r) → p ≡ returned (replied r)

pub data Effect (c : Connection) (k : Call) (c' : Connection) (k' : Call) : Type 0 where
  stays :
      k'.request_id ≡ k.request_id
      → k'.chan ≡ k.chan
      → c'.pending ≡ c.pending
      → c'.chans ≡ c.chans
      → in_flight k'.phase ≡ in_flight k.phase
      → SameReplies k.phase k'.phase
      → Effect c k c' k'
  enters :
      k'.request_id ≡ k.request_id
      → k'.chan ≡ k.chan
      → lookup k.request_id c.pending ≡ none
      → c'.pending ≡ insert k.request_id k.chan c.pending
      → c'.chans ≡ c.chans
      → in_flight k.phase ≡ false
      → in_flight k'.phase ≡ true
      → SameReplies k.phase k'.phase
      → Effect c k c' k'
  leaves :
      k'.request_id ≡ k.request_id
      → k'.chan ≡ k.chan
      → c'.pending ≡ delete k.request_id c.pending
      → c'.chans ≡ c.chans
      → in_flight k.phase ≡ true
      → in_flight k'.phase ≡ false
      → SameReplies k.phase k'.phase
      → Effect c k c' k'
  takes :
      (r : Response)
      → k'.request_id ≡ k.request_id
      → k'.chan ≡ k.chan
      → c'.pending ≡ delete k.request_id c.pending
      → get_elem? c.chans k.chan ≡ some (some r)
      → c'.chans ≡ modify c.chans k.chan (λ _. none)
      → in_flight k.phase ≡ true
      → k'.phase ≡ returned (replied r)
      → Effect c k c' k'

unchanged : (c : Connection) (k : Call) → Effect c k c k
unchanged c k = stays refl refl refl refl refl (λ r e. e)

leave-Effect :
    (c d : Connection) (k : Call) (o : Outcome)
    → d.pending ≡ c.pending
    → d.chans ≡ c.chans
    → in_flight k.phase ≡ true
    → ((r : Response) → ¬ (o ≡ replied r))
    → Effect c k (leave d k o).0 (leave d k o).1
unfolding leave
leave-Effect c d k o p q f n =
    leaves refl refl (ap (delete k.request_id) p) q f refl (λ r e. absurd (n r (ground (arith, e))))

enter_pending-Effect :
    (c : Connection) (k : Call) (found : Option ℕ)
    → lookup k.request_id c.pending ≡ found
    → k.phase ≡ entered
    → Effect c k (enter_pending c k found).0 (enter_pending c k found).1
unfolding enter_pending
enter_pending-Effect c k none e f = enters refl refl e refl refl (ground arith) refl (λ r h. cc)
enter_pending-Effect c k (some a) e f = stays refl refl refl refl (ground arith) (λ r h. cc)

on_closed-Effect :
    (c : Connection) (k : Call)
    → in_flight k.phase ≡ true
    → Effect c k (on_closed c k).0 (on_closed c k).1
unfolding on_closed
on_closed-Effect c k f = elim (Bool-cases (is_closed c.closed)) [
  | inl e ↦ rw (e, on_closed) (leave-Effect c c k _ refl refl f (λ r h. cc))
  | inr e ↦ rw (e, on_closed) (unchanged c k)
]

-- A loss touches neither the table nor the buffers.
pub mark_lost_tables :
    (c : Connection) → ((mark_lost c).pending ≡ c.pending) × ((mark_lost c).chans ≡ c.chans)
unfolding mark_lost
mark_lost_tables c = ground arith

not_reply :
    (b : Bool) (o p : Outcome)
    → ((r : Response) → ¬ (o ≡ replied r))
    → ((r : Response) → ¬ (p ≡ replied r))
    → (r : Response) → ¬ ((if b then o else p) ≡ replied r)
not_reply true o p f g = f
not_reply false o p f g = g

after_write-Effect :
    (c : Connection) (k : Call) (written cancelled : Bool)
    → k.phase ≡ writing
    → Effect c k (after_write c k written cancelled).0 (after_write c k written cancelled).1
unfolding after_write
after_write-Effect c k true false f = stays refl refl refl refl (ground arith) (λ r h. cc)
after_write-Effect c k true true f = leave-Effect c _ k _ refl refl (ground arith) (λ r h. cc)
after_write-Effect c k false true f =
    leave-Effect c _ k _ (mark_lost_tables c).0 (mark_lost_tables c).1 (ground arith) (λ r h. cc)
after_write-Effect c k false false f =
    leave-Effect c _ k _ (mark_lost_tables c).0 (mark_lost_tables c).1 (ground arith)
      (not_reply _ connection_lost write_failed (λ r h. cc) (λ r h. cc))

on_reply-Effect :
    (c : Connection) (k : Call) (buffer : Option (Option Response))
    → get_elem? c.chans k.chan ≡ buffer
    → in_flight k.phase ≡ true
    → Effect c k (on_reply c k buffer).0 (on_reply c k buffer).1
unfolding on_reply leave
on_reply-Effect c k none e f = unchanged c k
on_reply-Effect c k (some none) e f = unchanged c k
on_reply-Effect c k (some (some r)) e f = takes r refl refl refl e refl f refl

registered-Effect :
    (c : Connection) (k : Call) (ready : Ready)
    → k.phase ≡ registered
    → Effect c k (advance_from registered c k ready).0 (advance_from registered c k ready).1
unfolding advance_from
registered-Effect c k proceed f = elim (Bool-cases (is_closed c.closed)) [
  | inl e ↦ rw (e, advance_from) (leave-Effect c c k _ refl refl (ground arith) (λ r h. cc))
  | inr e ↦ rw (e, advance_from) (stays refl refl refl refl (ground arith) (λ r h. cc))
]
registered-Effect c k _ f = unchanged c k

advance_from-Effect :
    (p : Phase) (c : Connection) (k : Call) (ready : Ready)
    → k.phase ≡ p
    → Effect c k (advance_from p c k ready).0 (advance_from p c k ready).1
unfolding advance_from
advance_from-Effect entered c k proceed f = enter_pending-Effect c k _ refl f
advance_from-Effect registered c k ready f = registered-Effect c k ready f
advance_from-Effect writing c k (write_done w x) f = after_write-Effect c k w x f
advance_from-Effect writing c k closed_ready f = on_closed-Effect c k (ground arith)
advance_from-Effect writing c k context_ready f =
    leave-Effect c c k _ refl refl (ground arith) (λ r h. cc)
advance_from-Effect waiting c k reply_ready f = on_reply-Effect c k _ refl (ground arith)
advance_from-Effect waiting c k closed_ready f = on_closed-Effect c k (ground arith)
advance_from-Effect waiting c k context_ready f =
    leave-Effect c c k _ refl refl (ground arith) (λ r h. cc)
advance_from-Effect _ c k _ f = unchanged c k

pub advance-Effect :
    (c : Connection) (k : Call) (ready : Ready)
    → Effect c k (advance c k ready).0 (advance c k ready).1
unfolding advance
advance-Effect c k ready = advance_from-Effect k.phase c k ready refl
