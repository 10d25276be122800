-- ===== src/Hub/Connection/Routing/Arrivals.antt =====
-- A new call and a delivered reply keep the invariant.
use fast_spider.Prelude.{
  ℕ, ◌≡◌, refl, sym, ap, ◌∙◌, ◌⊎◌, inl, inr, true, false, [], ◌∷◌, ◌++◌, Option, none, some, String,
  arith, length, length-append, length-modify, get_elem?, modified, appended, modify, lookup,
  Bool-cases, get_elem?-lt, get_elem?-append_left,
}
use fast_spider.Hub.Connection.{
  Connection, Response, closed_signal, is_closed, deliver_response, send_pending, try_send,
}
use fast_spider.Hub.Connection.Calls.{Call, returned, replied, Link, begins, delivers, link_step}
use fast_spider.Hub.Connection.Routing.Effects.{in_flight}
use fast_spider.Hub.Connection.Routing.Sound.{call_at, pending_at, IsSound, IsSound-same}

module _ (l : Link) (k : Call) (s : IsSound l) (fresh : k.chan ≡ length l.conn.chans)
    (idle : in_flight k.phase ≡ false)
    (silent : (r : Response) → ¬ (k.phase ≡ returned (replied r))) where
  abbrev started : Link
  started = record {
    conn = record l.conn { chans = l.conn.chans ++ none ∷ [] };
    calls = l.calls ++ k ∷ [];
  }

  started_owned :
      (id : String) (ch : ℕ)
      → pending_at l id ≡ some ch
      → (q : Call) × (call_at started ch ≡ some q)
        × (q.request_id ≡ id)
        × (in_flight q.phase ≡ true)
  started_owned id ch e =
      let (q, found, same_id, f) = s.owned id ch e in
      (q, get_elem?-append_left l.calls _ ch (get_elem?-lt l.calls ch found) ∙ found, same_id, f)

  started_buffered :
      (j : ℕ) (q : Call) (r : Response)
      → call_at started j ≡ some q
      → get_elem? (l.conn.chans ++ none ∷ []) j ≡ some (some r)
      → r.request_id ≡ q.request_id
  started_buffered j q r h f = elim (appended l.conn.chans j f) [
    | inr (p, e) ↦ absurd (ground (arith, e))
    | inl full ↦ elim (appended l.calls j h) [
      | inl old ↦ s.buffered j q r old full
      | inr (p, e) ↦ absurd (omega (arith, p, get_elem?-lt l.conn.chans j full, s.aligned))
    ]
  ]

  pub started-IsSound : IsSound started
  started-IsSound = record {
    aligned =
        omega (
          arith,
          s.aligned,
          length-append l.calls (k ∷ []),
          length-append l.conn.chans (none ∷ []),
        );
    indexed = λ j q h. elim (appended l.calls j h) [
      | inl old ↦ s.indexed j q old
      | inr (p, e) ↦ ap (λ q. q.chan) e ∙ fresh ∙ sym s.aligned ∙ sym p
    ];
    held = λ j q h f. elim (appended l.calls j h) [
      | inl old ↦ s.held j q old f
      | inr (p, e) ↦ absurd (ground (arith, f, ap (λ q. in_flight q.phase) e, idle))
    ];
    owned = started_owned;
    buffered = started_buffered;
    answered = λ j q r h f. elim (appended l.calls j h) [
      | inl old ↦ s.answered j q r old f
      | inr (p, e) ↦ absurd (silent r (ap (λ q. q.phase) (sym e) ∙ f))
    ];
  }

pub begins-IsSound : (l : Link) (id : String) → IsSound l → IsSound (link_step l (begins id))
unfolding link_step closed_signal
begins-IsSound l id s =
    started-IsSound (record l { conn = closed_signal l.conn }) _
      (IsSound-same l (closed_signal l.conn) refl refl s) refl (ground arith)
      (λ r e. absurd (ground arith))

abbrev Delivered : Connection → Response → Connection → Type 0
Delivered c r d =
    ((d.pending ≡ c.pending) × (d.chans ≡ c.chans))
    ⊎ ((ch : ℕ) × (d.pending ≡ c.pending)
        × (lookup r.request_id c.pending ≡ some ch)
        × (get_elem? c.chans ch ≡ some none)
        × (d.chans ≡ modify c.chans ch (λ _. some r)))

send_pending-Delivered :
    (c : Connection) (r : Response) (o : Option ℕ)
    → lookup r.request_id c.pending ≡ o
    → Delivered c r (send_pending c o r).0
unfolding send_pending
send_pending-Delivered c r none e = inl (refl, refl)
send_pending-Delivered c r (some ch) e = go (get_elem? c.chans ch) refl
  where
    go :
        (b : Option (Option Response))
        → get_elem? c.chans ch ≡ b
        → Delivered c r (try_send c ch b r).0
    go none h = inl (refl, refl)
    go (some none) h = inr (ch, refl, e, h, refl)
    go (some (some old)) h = inl (refl, refl)

deliver_response-Delivered :
    (c : Connection) (r : Response) → Delivered c r (deliver_response c r).0
unfolding deliver_response closed_signal
deliver_response-Delivered c r = elim (Bool-cases (is_closed (closed_signal c).closed)) [
  | inl e ↦ rw (e, deliver_response) (inl (refl, refl))
  | inr e ↦ rw (e, deliver_response) (send_pending-Delivered (closed_signal c) r _ refl)
]

arrived-IsSound :
    (l : Link) (r : Response) (ch : ℕ)
    → IsSound l
    → pending_at l r.request_id ≡ some ch
    → get_elem? l.conn.chans ch ≡ some none
    → IsSound (record l { conn = record l.conn { chans = modify l.conn.chans ch (λ _. some r) } })
arrived-IsSound l r ch s e empty = record {
  aligned = s.aligned ∙ sym (length-modify l.conn.chans ch _);
  indexed = s.indexed;
  held = s.held;
  owned = s.owned;
  buffered = λ j q r' h f. elim (modified l.conn.chans ch j (λ _. some r) f) [
    | inr (n, old) ↦ s.buffered j q r' h old
    | inl (p, (b, old, full)) ↦
        let (q', found, same_id, g) = s.owned r.request_id ch e in
        ground (arith, found, h, p, full, same_id)
  ];
  answered = s.answered;
}

pub delivers-IsSound : (l : Link) (r : Response) → IsSound l → IsSound (link_step l (delivers r))
unfolding link_step
delivers-IsSound l r s = elim (deliver_response-Delivered l.conn r) [
  | inl (p, q) ↦ IsSound-same l _ p q s
  | inr (ch, p, e, empty, q) ↦
      IsSound-same _ (deliver_response l.conn r).0 p q (arrived-IsSound l r ch s e empty)
]
