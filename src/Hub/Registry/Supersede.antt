-- ===== src/Hub/Registry/Supersede.antt =====
-- Who owns a machine's entry: the newest generation replaces older ones and nothing else does, and
-- a goroutine of an older generation can no longer change the entry.
use fast_spider.Prelude.{
  Option-cases, inl, inr, ℕ, ◌<◌, ◌≤◌, ◌≡◌, refl, ap, ◌∙◌, true, false, List, [], ◌∷◌, ◌++◌, none,
  some, String, arith, length, get_elem?, modify, lookup, leb, get_elem?-lt, get_elem?-append_last,
  get_elem?-append_left, get_elem?-modify_self, get_elem?-modify_ne, lookup-insert_self, insert,
}
use native.Mathlib.Decide.{dec_lt}
use mathlib.Core.Logic.{◌⊎◌}
use fast_spider.Hub.Connection.{Connection, IsLive, mark_lost, is_closed}
use fast_spider.Hub.Registry.{Registry, new_registry, current, register}
use fast_spider.Hub.Registry.Invariant.{WellFormed, is_closed-mark_lost}
use fast_spider.Hub.Registry.Current.{current_at, current_of, same_current}
use fast_spider.Hub.Registry.History.{Op, replay, replay-WellFormed}

lost_at :
    (heap : List Connection) (b : ℕ) {c : Connection}
    → get_elem? heap b ≡ some c
    → IsLive c
    → (d : Connection) × (get_elem? (modify heap b mark_lost) b ≡ some d)
      × (is_closed d.closed ≡ true)
lost_at heap b {c = c} at v =
    (mark_lost c, get_elem?-modify_self heap b mark_lost at, is_closed-mark_lost c v)

abbrev pub Lost : Registry → ℕ → Type 0
Lost r b = (d : Connection) × (get_elem? r.heap b ≡ some d) × (is_closed d.closed ≡ true)

module _ (r : Registry) (w : WellFormed r) (n : Connection) where
  new_at :
      (r' : Registry)
      → r'.conns ≡ insert n.machine_id (length r.heap) r.conns
      → get_elem? r'.heap (length r.heap) ≡ some n
      → current r' n.machine_id ≡ some (length r.heap, n)
  new_at r' e f =
      current_of r' n.machine_id (length r.heap) n
        (ap (lookup n.machine_id) e ∙ lookup-insert_self n.machine_id (length r.heap) r.conns) f

  register_first :
      current r n.machine_id ≡ none
      → ((register r n).1 ≡ none)
        × ((register r n).2 ≡ true)
        × (current (register r n).0 n.machine_id ≡ some (length r.heap, n))
  unfolding register
  register_first e = rw (e, register) (refl, refl, new_at _ refl (get_elem?-append_last r.heap n))

  pub register_newer :
      (b : ℕ) (old : Connection)
      → current r n.machine_id ≡ some (b, old)
      → old.generation < n.generation
      → ((register r n).1 ≡ some b)
        × ((register r n).2 ≡ true)
        × (current (register r n).0 n.machine_id ≡ some (length r.heap, n))
        × Lost (register r n).0 b
  unfolding register
  register_newer b old e newer =
      let older : leb n.generation old.generation ≡ false = ground arith in
      let at : get_elem? r.heap b ≡ some old = (current_at r n.machine_id e).1 in
      let far : b < length r.heap = get_elem?-lt r.heap b at in
      rw (e, register, older)
        (
          refl,
          refl,
          new_at _ refl (
              get_elem?-modify_ne (r.heap ++ n ∷ []) b (length r.heap) mark_lost (λ p. omega arith)
              ∙ get_elem?-append_last r.heap n),
          lost_at (r.heap ++ n ∷ []) b (get_elem?-append_left r.heap (n ∷ []) b far ∙ at)
              (w.live b old at),
        )

  pub register_older :
      (b : ℕ) (old : Connection)
      → current r n.machine_id ≡ some (b, old)
      → n.generation ≤ old.generation
      → (register r n ≡ (record r { heap = r.heap ++ n ∷ [] }, none, false))
        × ((k : String) → current (register r n).0 k ≡ current r k)
  unfolding register
  register_older b old e older =
      let refused : leb n.generation old.generation ≡ true = ground arith in
      rw (e, register, refused)
        (
          refl,
          λ k.
              same_current r w k _ refl (λ a c h at.
                get_elem?-append_left r.heap (n ∷ []) a (get_elem?-lt r.heap a at) ∙ at),
        )

-- After any history, for a new connection of a machine, exactly one of three things happens: the
-- machine has no connection, and the new one is accepted, replaces nothing and becomes the machine's
-- connection; the machine has one of a smaller generation, and the new one is accepted and becomes
-- the machine's connection, while the old one is reported as replaced and is lost; or the machine
-- has one of the same or a greater generation, and the new one is refused and the connection of no
-- machine changes.
pub register_by_generation :
    (ops : List Op) (n : Connection)
    → let r = replay new_registry ops in
      ((current r n.machine_id ≡ none)
        × ((register r n).1 ≡ none)
        × ((register r n).2 ≡ true)
        × (current (register r n).0 n.machine_id ≡ some (length r.heap, n)))
      ⊎ ((b : ℕ) × (old : Connection) × (current r n.machine_id ≡ some (b, old))
          × (old.generation < n.generation)
          × ((register r n).1 ≡ some b)
          × ((register r n).2 ≡ true)
          × (current (register r n).0 n.machine_id ≡ some (length r.heap, n))
          × Lost (register r n).0 b)
      ⊎ ((b : ℕ) × (old : Connection) × (current r n.machine_id ≡ some (b, old))
          × (n.generation ≤ old.generation)
          × ((register r n).2 ≡ false)
          × ((k : String) → current (register r n).0 k ≡ current r k))
register_by_generation ops n =
    let r = replay new_registry ops in
    let w = replay-WellFormed ops in
    elim (Option-cases (current r n.machine_id)) [
      | inl e ↦
          let (replaced, accepted, now) = register_first r w n e in inl (e, replaced, accepted, now)
      | inr ((b, old), e) ↦ elim (dec_lt old.generation n.generation) [
        | yes lt ↦
            let (replaced, accepted, now, lost) = register_newer r w n b old e lt in
            inr (inl (b, old, e, lt, replaced, accepted, now, lost))
        | no ge ↦
            let le : n.generation ≤ old.generation = omega arith in
            let (answer, same) = register_older r w n b old e le in
            inr (inr (b, old, e, le, ap (λ r. r.2) answer, same))
      ]
    ]
