-- ===== src/Tests/HubTests.antt =====
-- The Hub's connections, registry and registration limiter at concrete inputs.
use fast_spider.Prelude.{
  inl, inr, ℕ, ◌≡◌, ◌≤◌, ◌<◌, ◌↔◌, ◌⊎◌, refl, true, false, List, [], ◌∷◌, none, some, String, arith,
  lookup, insert, delete, get_elem?, length, UniqueKeys, eq_iff, str_eq, if◌then◌else◌,
}
use fast_spider.Hub.Connection.{
  Connection, Response, new_connection, mark_lost, is_closed, deliver_response,
}
use fast_spider.Hub.Connection.Calls.{
  Call, Event, Link, begins, steps, delivers, proceed, write_done, reply_ready, returned, replied,
  link_step, link_run, advance, begin_call,
}
use fast_spider.Hub.Connection.Routing.{
  fresh_link, in_flight, reply_reaches_caller, pending_iff_in_flight,
}
use fast_spider.Hub.Registry.{
  new_registry, current, register, remove, touch, set_capabilities, close_stale,
}
use fast_spider.Hub.Registry.History.{
  Op, dismisses, registers, removes, touches, apply, replay, lost_for_good,
}
use fast_spider.Hub.Registry.Supersede.{register_by_generation, Lost}
use fast_spider.Hub.Registry.Late.{IsHeld, late_removes_are_harmless}
use fast_spider.Hub.Registry.Ownership.{other_machines_untouched, owner_rules}
use fast_spider.Hub.Registry.Sweep.{sweep_exact}
use fast_spider.Hub.RegistrationGuard.{RegistrationGuard, allow_named}
use fast_spider.Hub.RegistrationGuard.Quota.{grants, quota-InWindow, sources_bounded, after_calls}

abbrev pong : Response
pong = record { request_id = "r1"; body = "pong" }

-- One call runs to its reply; a second one waits.
abbrev talk : List Event
talk =
    begins "r1"
    ∷ steps 0 proceed
    ∷ steps 0 proceed
    ∷ steps 0 (write_done true false)
    ∷ begins "r2"
    ∷ steps 1 proceed
    ∷ delivers pong
    ∷ steps 0 reply_ready
    ∷ []

abbrev talked : Link
talked = link_run (fresh_link "m" "c" 1 5) talk

abbrev answered_call : Call
answered_call = record { request_id = "r1"; chan = 0; phase = returned (replied pong) }

talked_call : get_elem? talked.calls 0 ≡ some answered_call
unfolding link_run link_step advance begin_call new_connection lookup insert delete deliver_response
talked_call = refl

reply_reaches_caller_example : pong.request_id ≡ "r1"
reply_reaches_caller_example =
    reply_reaches_caller "m" "c" 1 5 talk 0 answered_call pong talked_call refl

pending_iff_in_flight_example : (lookup "r2" talked.conn.pending ≡ some 1) ↔ (
    (k : Call) × (get_elem? talked.calls 1 ≡ some k)
    × (k.request_id ≡ "r2")
    × (in_flight k.phase ≡ true))
pending_iff_in_flight_example = pending_iff_in_flight "m" "c" 1 5 talk "r2" 1

-- A machine that connects twice, beside another one.
abbrev twice : List Op
twice = registers "a" "c1" 1 10 ∷ registers "b" "c2" 1 11 ∷ registers "a" "c3" 2 30 ∷ []

abbrev newer : Connection
newer = new_connection "a" "c3" 2 30

twice-current : current (replay new_registry twice) "a" ≡ some (2, newer)
unfolding replay apply new_registry register current mark_lost new_connection lookup insert
twice-current = refl

twice_other : current (replay new_registry twice) "b" ≡ some (1, new_connection "b" "c2" 1 11)
unfolding replay apply new_registry register current mark_lost new_connection lookup insert
twice_other = refl

replaced_lost :
    get_elem? (replay new_registry twice).heap 0 ≡ some (mark_lost (new_connection "a" "c1" 1 10))
unfolding replay apply new_registry register current mark_lost new_connection lookup insert
replaced_lost = refl

register_by_generation_example :
    let r = replay new_registry twice in
    let n = new_connection "a" "c4" 2 40 in
    ((current r n.machine_id ≡ none)
      × ((register r n).1 ≡ none)
      × ((register r n).2 ≡ true)
      × (current (register r n).0 n.machine_id ≡ some (length r.heap, n)))
    ⊎ ((b : ℕ) × (old : Connection) × (current r n.machine_id ≡ some (b, old))
        × (old.generation < n.generation)
        × ((register r n).1 ≡ some b)
        × ((register r n).2 ≡ true)
        × (current (register r n).0 n.machine_id ≡ some (length r.heap, n))
        × Lost (register r n).0 b)
    ⊎ ((b : ℕ) × (old : Connection) × (current r n.machine_id ≡ some (b, old))
        × (n.generation ≤ old.generation)
        × ((register r n).2 ≡ false)
        × ((k : String) → current (register r n).0 k ≡ current r k))
register_by_generation_example = register_by_generation twice (new_connection "a" "c4" 2 40)

other_machines_untouched_example :
    current (apply (replay new_registry twice) (removes "a" 2)) "b"
    ≡ current (replay new_registry twice) "b"
other_machines_untouched_example =
    other_machines_untouched twice (removes "a" 2) "b" "a" refl
      (λ e. ground (arith, eq_iff "a" "b"))

-- The goroutine of the replaced connection ends late, and the replaced object is told goodbye.
abbrev late : List Op
late =
    removes "a" 1
    ∷ dismisses 0 "MACHINE_DISABLED" "disabled" true
    ∷ registers "a" "c4" 2 50
    ∷ removes "b" 1
    ∷ []

late_removes_are_harmless_example :
    IsHeld "a" 2 newer.generation (replay (replay new_registry twice) late)
unfolding new_connection
late_removes_are_harmless_example =
    late_removes_are_harmless twice late "a" 2 newer twice-current
      (inr (omega arith), (tt, (tt, (inl (λ e. ground (arith, eq_iff "a" "b")), tt))))

test_owner_rules :
    let r = replay new_registry twice in
    (current (remove r "a" newer.generation) "a" ≡ none)
    × (get_elem? (remove r "a" newer.generation).heap 2 ≡ some (mark_lost newer))
    × ((touch r "a" newer.generation "busy" 50).1 ≡ true)
    × (current (touch r "a" newer.generation "busy" 50).0 "a"
        ≡ some (
          2,
          record newer {
            last_seen_at = 50;
            status = if str_eq "busy" "" then newer.status else "busy";
          },
        ))
    × ((set_capabilities r "a" newer.generation []).1 ≡ true)
    × (current (set_capabilities r "a" newer.generation []).0 "a"
        ≡ some (2, record newer { capabilities = [] }))
test_owner_rules = owner_rules (replay new_registry twice) "a" 2 newer "busy" 50 [] twice-current

sweep_exact_example :
    let c = new_connection "b" "c2" 1 11 in
    let r' = (close_stale (replay new_registry twice) 20 (λ a. true)).0 in
    ((c.last_seen_at < 20)
      × ((d : Connection) × (current r' "b" ≡ some (1, d)) × (is_closed d.closed ≡ true)))
    ⊎ ((20 ≤ c.last_seen_at) × (current r' "b" ≡ some (1, c)))
sweep_exact_example =
    sweep_exact twice 20 (λ a. true) "b" 1 (new_connection "b" "c2" 1 11) twice_other

lost_for_good_example :
    (d : Connection) × (get_elem?
        (replay (replay new_registry twice) (touches "a" 1 "busy" 60 ∷ [])).heap
        0
      ≡ some d)
    × (is_closed d.closed ≡ true)
unfolding mark_lost new_connection is_closed
lost_for_good_example =
    lost_for_good twice (touches "a" 1 "busy" 60 ∷ []) 0 (mark_lost (new_connection "a" "c1" 1 10))
      replaced_lost refl

-- A limiter that grants two registrations in a window of ten.
abbrev small_guard : RegistrationGuard
small_guard = record {
  entries = [];
  window = 10;
  per_window = 2;
  max_sources = 3;
  max_clients = 4;
  max_orphans = 4;
  max_source_orphans = 2;
  orphan_retention = 20;
  next_sweep = 0;
}

abbrev burst : List (String × ℕ)
burst = ("s", 6) ∷ ("t", 7) ∷ ("s", 8) ∷ ("s", 14) ∷ []

burst-grants : grants "s" small_guard (("s", 5) ∷ burst) ≡ 2
unfolding grants allow_named lookup insert
burst-grants = refl

quota-InWindow_example : grants "s" small_guard (("s", 5) ∷ burst) ≤ 2
unfolding allow_named lookup insert
quota-InWindow_example =
    quota-InWindow small_guard "s" 5 burst tt (omega arith) (λ e h. absurd (ground arith)) refl
      (refl, (refl, (refl, (refl, tt))))

sources_bounded_example :
    UniqueKeys (after_calls small_guard burst).entries
    × (length (after_calls small_guard burst).entries ≤ (after_calls small_guard burst).max_sources)
sources_bounded_example = sources_bounded burst small_guard tt (omega arith)
