-- ===== src/Hub/Connection/Routing/Moves.antt =====
-- Each step of a call keeps the invariant: what entering and leaving do to the table of pending
-- calls, seen from this call and from the others.
use fast_spider.Prelude.{
  ℕ, ◌≡◌, ◌≢◌, sym, ap, ◌∙◌, ◌⊎◌, inl, inr, true, false, List, Option, none, some, String, arith,
  length, length-modify, get_elem?, modified, modify, lookup, insert, delete, lookup-insert,
  lookup-insert_self, lookup-delete, eq_iff, Bool-cases, str_eq,
}
use native.Mathlib.Decide.{ℕ_discrete}
use fast_spider.Hub.Connection.{Connection, Response}
use fast_spider.Hub.Connection.Calls.{Call, returned, replied, Link}
use fast_spider.Hub.Connection.Routing.Effects.{in_flight, Effect, stays, enters, leaves, takes}
use fast_spider.Hub.Connection.Routing.Sound.{
  call_at, pending_at, IsSound, replaced, unchanged_replies, moved-IsSound,
}

-- A buffer that is full after another one was emptied was full before.
emptied :
    (cs : List (Option Response)) (i j : ℕ) {r r' : Response}
    → get_elem? cs i ≡ some (some r)
    → get_elem? (modify cs i (λ _. none)) j ≡ some (some r')
    → get_elem? cs j ≡ some (some r')
emptied cs i j full e = elim (modified cs i j (λ _. none) e) [
  | inl (p, (a, old, q)) ↦ ground arith
  | inr (n, h) ↦ h
]

module _ (l : Link) (i : ℕ) (k : Call) (at : call_at l i ≡ some k) (s : IsSound l) where
  taken :
      (r r' : Response) (id : String)
      → id ≡ k.request_id
      → get_elem? l.conn.chans k.chan ≡ some (some r)
      → returned (replied r) ≡ returned (replied r')
      → r'.request_id ≡ id
  taken r r' id a full e =
      let mine : r.request_id ≡ k.request_id =
        s.buffered i k r at (ap (get_elem? l.conn.chans) (sym (s.indexed i k at)) ∙ full) in
      ground (arith, mine)

  -- The table after the call has left it.
  delete_others :
      (j : ℕ) (q : Call)
      → i ≢ j
      → in_flight k.phase ≡ true
      → pending_at l q.request_id ≡ some j
      → lookup q.request_id (delete k.request_id l.conn.pending) ≡ some j
  delete_others j q n f e = ground (
    arith,
    lookup-delete k.request_id q.request_id l.conn.pending,
    eq_iff k.request_id q.request_id,
    s.held i k at f,
  )

  delete_owned :
      (id : String) (ch : ℕ)
      → in_flight k.phase ≡ true
      → lookup id (delete k.request_id l.conn.pending) ≡ some ch
      → (i ≢ ch) × (pending_at l id ≡ some ch)
  delete_owned id ch f e = elim (Bool-cases (str_eq k.request_id id)) [
    | inl same ↦ ground (arith, lookup-delete k.request_id id l.conn.pending)
    | inr other ↦
        let kept : pending_at l id ≡ some ch =
          ground (arith, lookup-delete k.request_id id l.conn.pending) in
        let (q, found, same_id, g) = s.owned id ch kept in
        (λ p. ground (arith, eq_iff k.request_id id, p, at, found, same_id), kept)
  ]

  -- An entry of another call is not this one's.
  kept_owned :
      (k' : Call)
      → k'.request_id ≡ k.request_id
      → in_flight k'.phase ≡ in_flight k.phase
      → (id : String) (ch : ℕ) → pending_at l id ≡ some ch
      → ((ch ≡ i) × (k'.request_id ≡ id) × (in_flight k'.phase ≡ true))
        ⊎ ((i ≢ ch) × (pending_at l id ≡ some ch))
  kept_owned k' a f id ch e = elim (ℕ_discrete i ch) [
    | no n ↦ inr (n, e)
    | yes same ↦
        let (q, found, same_id, g) = s.owned id ch e in
        let it : k ≡ q = ground (arith, at, found, same) in
        inl (
          sym same,
          a ∙ ap (λ q. q.request_id) it ∙ same_id,
          f ∙ ap (λ q. in_flight q.phase) it ∙ g,
        )
  ]

  insert_mine : lookup k.request_id (insert k.request_id k.chan l.conn.pending) ≡ some i
  insert_mine = lookup-insert_self k.request_id k.chan l.conn.pending ∙ ap some (s.indexed i k at)

  insert_others :
      (j : ℕ) (q : Call)
      → lookup k.request_id l.conn.pending ≡ none
      → pending_at l q.request_id ≡ some j
      → lookup q.request_id (insert k.request_id k.chan l.conn.pending) ≡ some j
  insert_others j q none_yet e = ground (
    arith,
    lookup-insert k.request_id q.request_id k.chan l.conn.pending,
    eq_iff k.request_id q.request_id,
  )

  insert_owned :
      (k' : Call)
      → k'.request_id ≡ k.request_id
      → in_flight k.phase ≡ false
      → in_flight k'.phase ≡ true
      → (id : String) (ch : ℕ) → lookup id (insert k.request_id k.chan l.conn.pending) ≡ some ch
      → ((ch ≡ i) × (k'.request_id ≡ id) × (in_flight k'.phase ≡ true))
        ⊎ ((i ≢ ch) × (pending_at l id ≡ some ch))
  insert_owned k' a f g id ch e = elim (Bool-cases (str_eq k.request_id id)) [
    | inl same ↦ inl (
      ground (arith, lookup-insert k.request_id id k.chan l.conn.pending, s.indexed i k at),
      a ∙ (eq_iff k.request_id id).0 same,
      g,
    )
    | inr other ↦
        let old : pending_at l id ≡ some ch =
          ground (arith, lookup-insert k.request_id id k.chan l.conn.pending) in
        let (q, found, same_id, h) = s.owned id ch old in
        inr (λ p. ground (arith, at, found, p), old)
  ]

  pub Effect-IsSound :
      (c : Connection) (k' : Call) → Effect l.conn k c k' → IsSound (replaced l i k at s c k')
  Effect-IsSound c k' (stays a b p q f r) =
      moved-IsSound l i k at s c k' a b (ap length q)
        (λ j r e. ap (λ cs. get_elem? cs j) (sym q) ∙ e)
        (λ g. rw (a, p) (s.held i k at (sym f ∙ g))) (λ j q n e. rw p e)
        (λ id ch e. kept_owned k' a f id ch (ap (lookup id) (sym p) ∙ e))
        (unchanged_replies l i k at s k' a r)
  Effect-IsSound c k' (enters a b none_yet p q f g r) =
      moved-IsSound l i k at s c k' a b (ap length q)
        (λ j r e. ap (λ cs. get_elem? cs j) (sym q) ∙ e) (λ h. rw (a, p) insert_mine)
        (λ j q n e. rw p (insert_others j q none_yet e))
        (λ id ch e. insert_owned k' a f g id ch (ap (lookup id) (sym p) ∙ e))
        (unchanged_replies l i k at s k' a r)
  Effect-IsSound c k' (leaves a b p q f g r) =
      moved-IsSound l i k at s c k' a b (ap length q)
        (λ j r e. ap (λ cs. get_elem? cs j) (sym q) ∙ e) (λ h. ground arith)
        (λ j q n e. rw p (delete_others j q n f e))
        (λ id ch e. inr (delete_owned id ch f (ap (lookup id) (sym p) ∙ e)))
        (unchanged_replies l i k at s k' a r)
  Effect-IsSound c k' (takes r a b p full q f done) =
      moved-IsSound l i k at s c k' a b (ap length q ∙ length-modify l.conn.chans k.chan _)
        (λ j r' e. emptied l.conn.chans k.chan j full (ap (λ cs. get_elem? cs j) (sym q) ∙ e))
        (λ h. ground arith) (λ j q n e. rw p (delete_others j q n f e))
        (λ id ch e. inr (delete_owned id ch f (ap (lookup id) (sym p) ∙ e)))
        (λ r' e. taken r r' k'.request_id a full (sym done ∙ e))
