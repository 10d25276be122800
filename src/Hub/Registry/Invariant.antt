-- ===== src/Hub/Registry/Invariant.antt =====
-- The invariant of the registry and the histories that it is claimed for.
use fast_spider.Prelude.{
  ℕ, ◌≡◌, refl, ◌∙◌, inl, inr, Bool, true, false, [], ◌∷◌, ◌++◌, some, String, arith, get_elem?,
  modify, lookup, insert, delete, UniqueKeys, lookup-insert, lookup-delete, insert-UniqueKeys,
  delete-UniqueKeys, eq_iff, str_eq, Bool-cases, get_elem?-lt, get_elem?-append_left,
  get_elem?-modify_self, get_elem?-modify_ne, modified, appended,
}
use native.Mathlib.Decide.{ℕ_discrete}
use fast_spider.Hub.Connection.{Connection, IsLive, mark_lost, is_closed, new_connection}
use fast_spider.Hub.Registry.{Registry, touched, say_goodbye}

-- No machine has two entries; an entry leads to a connection of its machine; and the lifetime
-- signal of every connection is made.
pub record WellFormed (r : Registry) : Type 0 where
  pub unique : UniqueKeys r.conns
  pub resolved :
      (k : String) (a : ℕ)
      → lookup k r.conns ≡ some a
      → (c : Connection) × (get_elem? r.heap a ≡ some c) × (c.machine_id ≡ k)
  pub live : (a : ℕ) (c : Connection) → get_elem? r.heap a ≡ some c → IsLive c

-- A change to one connection that the registry can make.
pub record IsTame (f : Connection → Connection) : Type 0 where
  pub same_machine : (c : Connection) → (f c).machine_id ≡ c.machine_id
  pub same_generation : (c : Connection) → (f c).generation ≡ c.generation
  pub keeps_live : (c : Connection) → IsLive c → IsLive (f c)
  pub keeps_lost : (c : Connection) → is_closed c.closed ≡ true → is_closed (f c).closed ≡ true

pub new_connection-IsLive :
    (machine_id connection_id : String) (generation now : ℕ)
    → IsLive (new_connection machine_id connection_id generation now)
unfolding new_connection is_closed
new_connection-IsLive m c g n = record { signal_made = λ e. cc; once_agrees = refl }

pub mark_lost-IsTame : IsTame mark_lost
unfolding mark_lost is_closed
mark_lost-IsTame = record {
  same_machine = λ c. ground arith;
  same_generation = λ c. ground arith;
  keeps_live = λ c v. record {
    signal_made = ground (arith, v.signal_made, v.once_agrees);
    once_agrees = ground (arith, v.once_agrees, v.signal_made);
  };
  keeps_lost = λ c e. ground arith;
}

pub is_closed-mark_lost : (c : Connection) → IsLive c → is_closed (mark_lost c).closed ≡ true
unfolding mark_lost is_closed
is_closed-mark_lost c v = ground (arith, v.once_agrees)

pub touched-IsTame : (status : String) (now : ℕ) → IsTame (touched status now)
unfolding touched
touched-IsTame status now = record {
  same_machine = λ c. refl;
  same_generation = λ c. refl;
  keeps_live = λ c v. record { signal_made = v.signal_made; once_agrees = v.once_agrees };
  keeps_lost = λ c e. e;
}

pub say_goodbye-IsTame :
    (code reason : String) (written : Bool) → IsTame (say_goodbye code reason written)
unfolding say_goodbye
say_goodbye-IsTame code reason true = record {
  same_machine = λ c. mark_lost-IsTame.same_machine _;
  same_generation = λ c. mark_lost-IsTame.same_generation _;
  keeps_live = λ c v.
      mark_lost-IsTame.keeps_live _
        (record { signal_made = v.signal_made; once_agrees = v.once_agrees });
  keeps_lost = λ c e. mark_lost-IsTame.keeps_lost _ e;
}
say_goodbye-IsTame code reason false = record {
  same_machine = λ c. mark_lost-IsTame.same_machine _ ∙ mark_lost-IsTame.same_machine c;
  same_generation = λ c. mark_lost-IsTame.same_generation _ ∙ mark_lost-IsTame.same_generation c;
  keeps_live = λ c v. mark_lost-IsTame.keeps_live _ (mark_lost-IsTame.keeps_live c v);
  keeps_lost = λ c e. mark_lost-IsTame.keeps_lost _ (mark_lost-IsTame.keeps_lost c e);
}

pub is_closed-say_goodbye :
    (code reason : String) (written : Bool) (c : Connection)
    → IsLive c
    → is_closed (say_goodbye code reason written c).closed ≡ true
unfolding say_goodbye
is_closed-say_goodbye code reason true c v =
    is_closed-mark_lost _ (record { signal_made = v.signal_made; once_agrees = v.once_agrees })
is_closed-say_goodbye code reason false c v =
    is_closed-mark_lost _ (mark_lost-IsTame.keeps_live c v)

pub modify-WellFormed :
    (r : Registry) (b : ℕ) (f : Connection → Connection)
    → IsTame f
    → WellFormed r
    → WellFormed (record r { heap = modify r.heap b f })
modify-WellFormed r b f t w = record {
  unique = w.unique;
  resolved = λ k a e. go k a (w.resolved k a e);
  live = λ a c e. elim (modified r.heap b a f e) [
    | inl (p, (old, found, q)) ↦ rw q (t.keeps_live old (w.live a old found))
    | inr (n, found) ↦ w.live a c found
  ];
}
  where
    go :
        (k : String) (a : ℕ)
        → (c : Connection) × (get_elem? r.heap a ≡ some c) × (c.machine_id ≡ k)
        → (c : Connection) × (get_elem? (modify r.heap b f) a ≡ some c) × (c.machine_id ≡ k)
    go k a (c, found, same) = elim (ℕ_discrete b a) [
      | yes p ↦ (f c, rw p (get_elem?-modify_self r.heap a f found), t.same_machine c ∙ same)
      | no n ↦ (c, get_elem?-modify_ne r.heap b a f n ∙ found, same)
    ]

-- An object that the registry does not know yet.
pub allocate-WellFormed :
    (r : Registry) (c : Connection)
    → IsLive c
    → WellFormed r
    → WellFormed (record r { heap = r.heap ++ c ∷ [] })
allocate-WellFormed r c v w = record {
  unique = w.unique;
  resolved = λ k a e.
      let (d, found, same) = w.resolved k a e in
      (d, get_elem?-append_left r.heap _ a (get_elem?-lt r.heap a found) ∙ found, same);
  live = λ a d e. elim (appended r.heap a e) [ inl old ↦ w.live a d old | inr (p, q) ↦ rw q v ];
}

pub insert-WellFormed :
    (r : Registry) (c : Connection) (a : ℕ)
    → get_elem? r.heap a ≡ some c
    → WellFormed r
    → WellFormed (record r { conns = insert c.machine_id a r.conns })
insert-WellFormed r c a at w = record {
  unique = insert-UniqueKeys c.machine_id a r.conns w.unique;
  resolved = λ k b e. elim (Bool-cases (str_eq c.machine_id k)) [
    | inl same ↦ (
      c,
      ground (arith, lookup-insert c.machine_id k a r.conns, at),
      (eq_iff c.machine_id k).0 same,
    )
    | inr other ↦ w.resolved k b (ground (arith, lookup-insert c.machine_id k a r.conns))
  ];
  live = w.live;
}

pub delete-WellFormed :
    (r : Registry) (k : String) → WellFormed r → WellFormed (record r { conns = delete k r.conns })
delete-WellFormed r k w = record {
  unique = delete-UniqueKeys k r.conns w.unique;
  resolved = λ j b e. w.resolved j b (ground (arith, lookup-delete k j r.conns));
  live = w.live;
}
