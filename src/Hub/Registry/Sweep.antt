-- ===== src/Hub/Registry/Sweep.antt =====
-- The heartbeat sweep (CloseStale) against its description.
use fast_spider.Prelude.{
  ℕ, ◌<◌, ◌≤◌, ◌≡◌, refl, ap, ◌∙◌, ◌⊎◌, inl, inr, Bool, true, false, List, [], ◌∷◌, some, String,
  Map, arith, ◌||◌, str_eq, get_elem?, lookup, Bool-cases, ◌==◌, get_elem?-modify_self,
  get_elem?-modify_ne,
}
use native.Mathlib.Decide.{ℕ_discrete, dec_lt}
use mathlib.Core.Logic.{◌⊎◌}
use fast_spider.Hub.Connection.{Connection, IsLive, is_closed}
use fast_spider.Hub.Registry.{
  new_registry, current, close_stale, close_all, say_goodbye, stale_addresses,
}
use fast_spider.Hub.Registry.Invariant.{is_closed-say_goodbye, say_goodbye-IsTame}
use fast_spider.Hub.Registry.Current.{current_at, current_of}
use fast_spider.Hub.Registry.History.{Op, replay, replay-WellFormed}

pub member : ℕ → List ℕ → Bool
member a [] = false
member a (b ∷ bs) = b == a || member a bs

close_all_skips :
    (heap : List Connection) (stale : List ℕ) (written : ℕ → Bool) (a : ℕ)
    → member a stale ≡ false
    → get_elem? (close_all heap stale written) a ≡ get_elem? heap a
unfolding member close_all
close_all_skips heap [] written a h = refl
close_all_skips heap (b ∷ stale) written a h =
    close_all_skips _ stale written a (ground arith)
    ∙ get_elem?-modify_ne heap b a _ (λ p. ground arith)

AllLive : List Connection → Type 0
AllLive heap = (a : ℕ) (c : Connection) → get_elem? heap a ≡ some c → IsLive c

abbrev goodbye : Bool → Connection → Connection
goodbye = say_goodbye "HEARTBEAT_TIMEOUT" "heartbeat timeout"

close_all_keeps_lost :
    (heap : List Connection) (stale : List ℕ) (written : ℕ → Bool) (a : ℕ) (c : Connection)
    → get_elem? heap a ≡ some c
    → is_closed c.closed ≡ true
    → (d : Connection) × (get_elem? (close_all heap stale written) a ≡ some d)
      × (is_closed d.closed ≡ true)
unfolding close_all
close_all_keeps_lost heap [] written a c at lost = (c, at, lost)
close_all_keeps_lost heap (b ∷ stale) written a c at lost = elim (ℕ_discrete b a) [
  | yes p ↦
      close_all_keeps_lost _ stale written a (goodbye (written b) c)
        (rw p (get_elem?-modify_self heap a _ at))
        ((say_goodbye-IsTame _ _ (written b)).keeps_lost c lost)
  | no n ↦ close_all_keeps_lost _ stale written a c (get_elem?-modify_ne heap b a _ n ∙ at) lost
]

close_all_closes :
    (heap : List Connection) (stale : List ℕ) (written : ℕ → Bool) (a : ℕ) (c : Connection)
    → member a stale ≡ true
    → get_elem? heap a ≡ some c
    → IsLive c
    → (d : Connection) × (get_elem? (close_all heap stale written) a ≡ some d)
      × (is_closed d.closed ≡ true)
unfolding member close_all
close_all_closes heap [] written a c h at v = ground arith
close_all_closes heap (b ∷ stale) written a c h at v = elim (ℕ_discrete b a) [
  | yes p ↦
      close_all_keeps_lost _ stale written a (goodbye (written b) c)
        (rw p (get_elem?-modify_self heap a _ at)) (is_closed-say_goodbye _ _ (written b) c v)
  | no n ↦
      close_all_closes _ stale written a c (ground arith) (get_elem?-modify_ne heap b a _ n ∙ at) v
]

stale_in :
    (heap : List Connection) (m : Map ℕ) (before : ℕ) (k : String) (a : ℕ) (c : Connection)
    → lookup k m ≡ some a
    → get_elem? heap a ≡ some c
    → c.last_seen_at < before
    → member a (stale_addresses heap m before) ≡ true
unfolding member lookup stale_addresses
stale_in heap [] before k a c e at lt = ground arith
stale_in heap ((j, b) ∷ m) before k a c e at lt = elim (Bool-cases (str_eq j k)) [
  | inl t ↦ ground arith
  | inr t ↦ ground (arith, stale_in heap m before k a c)
]

stale_out :
    (heap : List Connection) (m : Map ℕ) (before : ℕ) (a : ℕ) (c : Connection)
    → get_elem? heap a ≡ some c
    → before ≤ c.last_seen_at
    → member a (stale_addresses heap m before) ≡ false
unfolding member stale_addresses
stale_out heap [] before a c at le = refl
stale_out heap ((j, b) ∷ m) before a c at le = elim (ℕ_discrete b a) [
  | yes p ↦ ground (arith, stale_out heap m before a c, ap (get_elem? heap) p)
  | no n ↦ ground (arith, stale_out heap m before a c)
]

-- After any history, the sweep keeps every entry; a connection that was last seen before the given
-- time is lost afterwards, whether or not its farewell could be written, and any other one is
-- exactly what it was.
pub sweep_exact :
    (ops : List Op) (before : ℕ) (written : ℕ → Bool) (k : String) (a : ℕ) (c : Connection)
    → let r = replay new_registry ops in
      let r' = (close_stale r before written).0 in
      current r k ≡ some (a, c)
      → ((c.last_seen_at < before)
          × ((d : Connection) × (current r' k ≡ some (a, d)) × (is_closed d.closed ≡ true)))
        ⊎ ((before ≤ c.last_seen_at) × (current r' k ≡ some (a, c)))
unfolding close_stale
sweep_exact ops before written k a c e =
    let r = replay new_registry ops in
    let (entry, at) = current_at r k e in
    let stale = stale_addresses r.heap r.conns before in
    elim (dec_lt c.last_seen_at before) [
      | yes lt ↦
          let (d, found, lost) =
            close_all_closes r.heap stale written a c
              (stale_in r.heap r.conns before k a c entry at lt) at
              ((replay-WellFormed ops).live a c at) in
          inl (lt, (d, current_of _ k a d entry found, lost))
      | no ge ↦
          let le : before ≤ c.last_seen_at = omega arith in
          inr (
            le,
            current_of _ k a c entry (
                close_all_skips r.heap stale written a (stale_out r.heap r.conns before a c at le)
                ∙ at),
          )
    ]
