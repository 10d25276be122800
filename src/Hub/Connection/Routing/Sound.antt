-- ===== src/Hub/Connection/Routing/Sound.antt =====
-- The invariant between two steps of the goroutines that use a connection, and what a call's move
-- has to show in order to keep it.
use fast_spider.Prelude.{
  ℕ, ◌≡◌, ◌≢◌, sym, ap, ◌∙◌, ◌⊎◌, inl, inr, true, Option, some, String, length, length-modify,
  get_elem?, modified, modify, lookup, get_elem?-modify_self, get_elem?-modify_ne,
}
use fast_spider.Hub.Connection.{Connection, Response}
use fast_spider.Hub.Connection.Calls.{Call, returned, replied, Link}
use fast_spider.Hub.Connection.Routing.Effects.{in_flight, SameReplies}

abbrev pub call_at : Link → ℕ → Option Call
call_at l i = get_elem? l.calls i

abbrev pub pending_at : Link → String → Option ℕ
pending_at l id = lookup id l.conn.pending

-- Between two steps of the goroutines.
pub record IsSound (l : Link) : Type 0 where
  pub aligned : length l.calls ≡ length l.conn.chans
  pub indexed : (i : ℕ) (k : Call) → call_at l i ≡ some k → k.chan ≡ i
  pub held :
      (i : ℕ) (k : Call)
      → call_at l i ≡ some k
      → in_flight k.phase ≡ true
      → pending_at l k.request_id ≡ some i
  pub owned :
      (id : String) (ch : ℕ)
      → pending_at l id ≡ some ch
      → (k : Call) × (call_at l ch ≡ some k) × (k.request_id ≡ id) × (in_flight k.phase ≡ true)
  pub buffered :
      (i : ℕ) (k : Call) (r : Response)
      → call_at l i ≡ some k
      → get_elem? l.conn.chans i ≡ some (some r)
      → r.request_id ≡ k.request_id
  pub answered :
      (i : ℕ) (k : Call) (r : Response)
      → call_at l i ≡ some k
      → k.phase ≡ returned (replied r)
      → r.request_id ≡ k.request_id

-- The invariant depends on the calls, the table and the buffers alone.
pub IsSound-same :
    (l : Link) (c : Connection)
    → c.pending ≡ l.conn.pending
    → c.chans ≡ l.conn.chans
    → IsSound l
    → IsSound (record l { conn = c })
IsSound-same l c p q s = record {
  aligned = rw q s.aligned;
  indexed = s.indexed;
  held = λ i k e f. rw p (s.held i k e f);
  owned = λ id ch e. s.owned id ch (ap (lookup id) (sym p) ∙ e);
  buffered = λ i k r e f. s.buffered i k r e (ap (λ cs. get_elem? cs i) (sym q) ∙ f);
  answered = s.answered;
}

module _ (l : Link) (i : ℕ) (k : Call) (at : call_at l i ≡ some k) (s : IsSound l) where
  abbrev pub replaced : Connection → Call → Link
  replaced c k' = record { conn = c; calls = modify l.calls i (λ _. k') }

  -- A statement on every call holds if it holds of the one that moved and of the others.
  each :
      (k' : Call) (P : ℕ → Call → Type 0)
      → P i k'
      → ((j : ℕ) (k'' : Call) → i ≢ j → call_at l j ≡ some k'' → P j k'')
      → (j : ℕ) (k'' : Call) → get_elem? (modify l.calls i (λ _. k')) j ≡ some k''
      → P j k''
  each k' P here there j k'' e = elim (modified l.calls i j (λ _. k') e) [
    | inl (p, (a, old, q)) ↦ rw (← p, q) here
    | inr (n, h) ↦ there j k'' n h
  ]

  pub unchanged_replies :
      (k' : Call)
      → k'.request_id ≡ k.request_id
      → SameReplies k.phase k'.phase
      → (r : Response) → k'.phase ≡ returned (replied r)
      → r.request_id ≡ k'.request_id
  unchanged_replies k' e same r f = s.answered i k r at (same r f) ∙ sym e

  owned_after :
      (c : Connection) (k' : Call)
      → ((id : String) (ch : ℕ)
          → lookup id c.pending ≡ some ch
          → ((ch ≡ i) × (k'.request_id ≡ id) × (in_flight k'.phase ≡ true))
            ⊎ ((i ≢ ch) × (pending_at l id ≡ some ch)))
      → (id : String) (ch : ℕ) → lookup id c.pending ≡ some ch
      → (q : Call) × (get_elem? (modify l.calls i (λ _. k')) ch ≡ some q)
        × (q.request_id ≡ id)
        × (in_flight q.phase ≡ true)
  owned_after c k' who id ch e = elim (who id ch e) [
    | inl (p, q, f) ↦ (k', rw p (get_elem?-modify_self l.calls i (λ _. k') at), q, f)
    | inr (n, h) ↦
        let (q, found, same, f) = s.owned id ch h in
        (q, rw (get_elem?-modify_ne l.calls i ch (λ _. k') n) found, same, f)
  ]

  pub moved-IsSound :
      (c : Connection) (k' : Call)
      → k'.request_id ≡ k.request_id
      → k'.chan ≡ k.chan
      → length c.chans ≡ length l.conn.chans
      → ((j : ℕ) (r : Response)
          → get_elem? c.chans j ≡ some (some r)
          → get_elem? l.conn.chans j ≡ some (some r))
      → (in_flight k'.phase ≡ true → lookup k'.request_id c.pending ≡ some i)
      → ((j : ℕ) (q : Call)
          → i ≢ j
          → pending_at l q.request_id ≡ some j
          → lookup q.request_id c.pending ≡ some j)
      → ((id : String) (ch : ℕ)
          → lookup id c.pending ≡ some ch
          → ((ch ≡ i) × (k'.request_id ≡ id) × (in_flight k'.phase ≡ true))
            ⊎ ((i ≢ ch) × (pending_at l id ≡ some ch)))
      → ((r : Response) → k'.phase ≡ returned (replied r) → r.request_id ≡ k'.request_id)
      → IsSound (replaced c k')
  moved-IsSound c k' same_id same_chan same_length fewer mine others who replies = record {
    aligned = length-modify l.calls i (λ _. k') ∙ s.aligned ∙ sym same_length;
    indexed =
        each k' (λ j q. q.chan ≡ j) (same_chan ∙ s.indexed i k at) (λ j q n h. s.indexed j q h);
    held =
        each k' (λ j q. in_flight q.phase ≡ true → lookup q.request_id c.pending ≡ some j) mine
          (λ j q n h f. others j q n (s.held j q h f));
    owned = owned_after c k' who;
    buffered = λ j q r h.
        each k' (λ j q. get_elem? c.chans j ≡ some (some r) → r.request_id ≡ q.request_id)
          (λ f. s.buffered i k r at (fewer i r f) ∙ sym same_id)
          (λ j q n h f. s.buffered j q r h (fewer j r f)) j q h;
    answered = λ j q r h.
        each k' (λ j q. q.phase ≡ returned (replied r) → r.request_id ≡ q.request_id) (replies r)
          (λ j q n h. s.answered j q r h) j q h;
  }
