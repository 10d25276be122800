-- ===== src/Hub/Registry/Late.antt =====
-- What goroutines of replaced connections can still do when they come late
-- (internal/hub/registry/registry.go: Register, Remove and what changes a connection).
use fast_spider.Prelude.{
  ℕ, ◌<◌, ◌≡◌, ◌≢◌, refl, ap, sym, ◌∙◌, ◌⊎◌, inl, inr, Bool, false, List, [], ◌∷◌, Option, none,
  some, String, arith, length, modify, str_eq, ◌==◌, Bool-cases, Option-cases, eq_iff, All,
  get_elem?-modify_self, get_elem?-modify_ne,
}
use native.Mathlib.Decide.{ℕ_discrete, dec_lt}
use fast_spider.Hub.Connection.{Connection, new_connection}
use fast_spider.Hub.Registry.{
  Registry, new_registry, current, register, remove, touch, set_capabilities, update_current,
  clone_capabilities, close_machine, close_stale, close_all, stale_addresses,
}
use fast_spider.Hub.Registry.Invariant.{WellFormed, IsTame, touched-IsTame, say_goodbye-IsTame}
use fast_spider.Hub.Registry.Current.{current_at, current_of}
use fast_spider.Hub.Registry.History.{
  Op, registers, removes, touches, sets, closes, sweeps, dismisses, apply, replay, sets-IsTame,
  apply-WellFormed, replay-WellFormed,
}
use fast_spider.Hub.Registry.Supersede.{register_newer, register_older}
use fast_spider.Hub.Registry.Ownership.{apply_other}

-- `Remove` of the machine, where it comes, is that of an older generation.
abbrev pub IsLate : String → ℕ → Op → Type 0
IsLate m g (registers machine connection generation now) = Unit
IsLate m g (removes machine generation) = (machine ≢ m) ⊎ (generation < g)
IsLate m g (touches machine generation status now) = Unit
IsLate m g (sets machine generation capabilities) = Unit
IsLate m g (closes machine code reason written) = Unit
IsLate m g (sweeps before written) = Unit
IsLate m g (dismisses a code reason written) = Unit

-- The machine's connection is the object at the address, with its generation, or a newer one.
abbrev pub IsHeld : String → ℕ → ℕ → Registry → Type 0
IsHeld m a g r =
    (b : ℕ) × (c : Connection) × (current r m ≡ some (b, c))
    × (((b ≡ a) × (c.generation ≡ g)) ⊎ (g < c.generation))

module _ (m : String) (a g : ℕ) where
  modify-IsHeld :
      (r : Registry) (x : ℕ) (f : Connection → Connection)
      → IsTame f
      → IsHeld m a g r
      → IsHeld m a g (record r { heap = modify r.heap x f })
  modify-IsHeld r x f t (b, c, e, held) =
      let (entry, at) = current_at r m e in
      elim (ℕ_discrete x b) [
        | yes p ↦ (
          b,
          f c,
          current_of _ m b (f c) entry (rw p (get_elem?-modify_self r.heap b f at)),
          rw (t.same_generation c) held,
        )
        | no n ↦ (b, c, current_of _ m b c entry (get_elem?-modify_ne r.heap x b f n ∙ at), held)
      ]

  update_current-IsHeld :
      (r : Registry) (k : ℕ) (f : Connection → Connection) (o : Option (ℕ × Connection))
      → IsTame f
      → IsHeld m a g r
      → IsHeld m a g (update_current r k f o).0
  unfolding update_current
  update_current-IsHeld r k f none t h = h
  update_current-IsHeld r k f (some (b, c)) t h = elim (Bool-cases (c.generation == k)) [
    | inl e ↦ rw (e, update_current) (modify-IsHeld r b f t h)
    | inr e ↦ rw (e, update_current) h
  ]

  close_machine-IsHeld :
      (r : Registry) (machine code reason : String) (written : Bool)
      → IsHeld m a g r
      → IsHeld m a g (close_machine r machine code reason written).0
  unfolding close_machine
  close_machine-IsHeld r machine code reason written h = elim (Option-cases (current r machine)) [
    | inl e ↦ rw (e, close_machine) h
    | inr (p, e) ↦
        rw (e, close_machine) (modify-IsHeld r p.0 _ (say_goodbye-IsTame code reason written) h)
  ]

  close_all-IsHeld :
      (r : Registry) (stale : List ℕ) (written : ℕ → Bool)
      → IsHeld m a g r
      → IsHeld m a g (record r { heap = close_all r.heap stale written })
  unfolding close_all
  close_all-IsHeld r [] written h = h
  close_all-IsHeld r (b ∷ stale) written h = close_all-IsHeld _ stale written (
      modify-IsHeld r b _ (say_goodbye-IsTame "HEARTBEAT_TIMEOUT" "heartbeat timeout" (written b))
        h)

  register_own-IsHeld :
      (r : Registry) (n : Connection)
      → WellFormed r
      → n.machine_id ≡ m
      → IsHeld m a g r
      → IsHeld m a g (register r n).0
  register_own-IsHeld r n w same (b, c, e, held) =
      let here : current r n.machine_id ≡ some (b, c) = ap (current r) same ∙ e in
      elim (dec_lt c.generation n.generation) [
        | yes lt ↦
            let (_, _, now, _) = register_newer r w n b c here lt in
            (
              length r.heap,
              n,
              ap (current (register r n).0) (sym same) ∙ now,
              inr (ground (arith, lt, held)),
            )
        | no ge ↦
            let (_, kept) = register_older r w n b c here (omega arith) in (b, c, kept m ∙ e, held)
      ]

  remove_late-IsHeld : (r : Registry) (k : ℕ) → k < g → IsHeld m a g r → IsHeld m a g (remove r m k)
  unfolding remove
  remove_late-IsHeld r k late (b, c, e, held) =
      let t : (c.generation == k) ≡ false = ground (arith, late, held) in
      rw (e, remove, t) (b, c, e, held)

  -- An operation that names another machine.
  other-IsHeld :
      (r : Registry) (r' : Registry) → current r' m ≡ current r m → IsHeld m a g r → IsHeld m a g r'
  other-IsHeld r r' same (b, c, e, held) = (b, c, same ∙ e, held)

  apply-IsHeld :
      (r : Registry) (op : Op)
      → WellFormed r
      → IsLate m g op
      → IsHeld m a g r
      → IsHeld m a g (apply r op)
  unfolding apply touch set_capabilities close_stale new_connection
  apply-IsHeld r (registers machine connection generation now) w late h =
      elim (Bool-cases (str_eq machine m)) [
        | inl s ↦ register_own-IsHeld r _ w (ground (arith, eq_iff machine m)) h
        | inr s ↦
            other-IsHeld r _
              (apply_other r w (registers machine connection generation now) m machine refl
                (λ p. ground (arith, eq_iff machine m)))
              h
      ]
  apply-IsHeld r (removes machine generation) w late h = elim (Bool-cases (str_eq machine m)) [
    | inl s ↦
        let same : machine ≡ m = ground (arith, eq_iff machine m) in
        let older : generation < g = ground (arith, late, same) in
        rw same (remove_late-IsHeld r generation older h)
    | inr s ↦
        other-IsHeld r _
          (apply_other r w (removes machine generation) m machine refl
            (λ p. ground (arith, eq_iff machine m)))
          h
  ]
  apply-IsHeld r (touches machine generation status now) w late h =
      update_current-IsHeld r generation _ _ (touched-IsTame status now) h
  apply-IsHeld r (sets machine generation capabilities) w late h =
      update_current-IsHeld r generation _ _ (sets-IsTame (clone_capabilities capabilities)) h
  apply-IsHeld r (closes machine code reason written) w late h =
      close_machine-IsHeld r machine code reason written h
  apply-IsHeld r (sweeps before written) w late h =
      close_all-IsHeld r (stale_addresses r.heap r.conns before) written h
  apply-IsHeld r (dismisses b code reason written) w late h =
      modify-IsHeld r b _ (say_goodbye-IsTame code reason written) h

  replay-IsHeld :
      (r : Registry) (ops : List Op)
      → WellFormed r
      → All (IsLate m g) ops
      → IsHeld m a g r
      → IsHeld m a g (replay r ops)
  unfolding replay
  replay-IsHeld r [] w late h = h
  replay-IsHeld r (op ∷ ops) w (l, late) h =
      replay-IsHeld (apply r op) ops (apply-WellFormed r op w) late (apply-IsHeld r op w l h)

-- From any moment at which a machine has a connection, over every further history in which each
-- `Remove` of this machine names a smaller generation than that connection has, the machine has a
-- connection: the same object with the same generation, or one of a greater generation.
pub late_removes_are_harmless :
    (before after : List Op) (m : String) (a : ℕ) (c : Connection)
    → current (replay new_registry before) m ≡ some (a, c)
    → All (IsLate m c.generation) after
    → IsHeld m a c.generation (replay (replay new_registry before) after)
late_removes_are_harmless before after m a c e late =
    replay-IsHeld m a c.generation (replay new_registry before) after (replay-WellFormed before)
      late (a, c, e, inl (refl, refl))
