-- ===== src/Hub/Registry/Ownership.antt =====
-- What an operation that names one machine does to the entries (internal/hub/registry/registry.go).
use fast_spider.Prelude.{
  str_eq, if◌then◌else◌, ap, ◌∙◌, ◌∷◌, [], ℕ, ◌≡◌, ◌≢◌, refl, ◌∙◌, inl, inr, Bool, true, List, [],
  ◌∷◌, ◌++◌, Option, none, some, String, arith, length, get_elem?, modify, lookup, Bool-cases,
  Option-cases, leb, ◌==◌, get_elem?-lt, get_elem?-append_left, get_elem?-modify_self,
  get_elem?-modify_ne, lookup-delete, lookup-insert, eq_refl, insert, eq_iff,
}
use fast_spider.Hub.Connection.{Connection, Descriptor, mark_lost, new_connection}
use fast_spider.Hub.Registry.{
  Registry, new_registry, current, register, remove, touch, touched, set_capabilities,
  update_current, close_machine, clone_capabilities,
}
use fast_spider.Hub.Registry.Invariant.{WellFormed}
use fast_spider.Hub.Registry.Current.{current_at, current_of, current-none, same_current}
use fast_spider.Hub.Registry.History.{
  Op, registers, removes, touches, sets, closes, sweeps, dismisses, apply, replay,
  replay-WellFormed,
}

-- Two machines' entries lead to two objects.
distinct_addresses :
    (r : Registry)
    → WellFormed r
    → (k m : String) (a b : ℕ) → lookup k r.conns ≡ some a
    → lookup m r.conns ≡ some b
    → m ≢ k
    → b ≢ a
distinct_addresses r w k m a b e f n p =
    let (c, at, same) = w.resolved k a e in
    let (d, at', same') = w.resolved m b f in n (ground (arith, at, at', same, same', p))

update_other :
    (r : Registry)
    → WellFormed r
    → (k m : String) (b : ℕ) (f : Connection → Connection) → lookup m r.conns ≡ some b
    → m ≢ k
    → current (record r { heap = modify r.heap b f }) k ≡ current r k
update_other r w k m b f e n =
    same_current r w k _ refl
      (λ a c h at. get_elem?-modify_ne r.heap b a f (distinct_addresses r w k m a b h e n) ∙ at)

update_current_other :
    (r : Registry)
    → WellFormed r
    → (k m : String) (g : ℕ) (f : Connection → Connection) → m ≢ k
    → current (update_current r g f (current r m)).0 k ≡ current r k
unfolding update_current
update_current_other r w k m g f n = elim (Option-cases (current r m)) [
  | inl e ↦ rw (e, update_current)
  | inr ((b, c), e) ↦ elim (Bool-cases (c.generation == g)) [
    | inl t ↦ rw (e, update_current, t) (update_other r w k m b f (current_at r m e).0 n)
    | inr t ↦ rw (e, update_current, t)
  ]
]

remove_other :
    (r : Registry)
    → WellFormed r
    → (k m : String) (g : ℕ) → m ≢ k
    → current (remove r m g) k ≡ current r k
unfolding remove
remove_other r w k m g n = elim (Option-cases (current r m)) [
  | inl e ↦ rw (e, remove)
  | inr ((b, c), e) ↦ elim (Bool-cases (c.generation == g)) [
    | inr t ↦ rw (e, remove, t)
    | inl t ↦
        rw (e, remove, t)
          (same_current r w k _ (ground (arith, lookup-delete m k r.conns, eq_iff m k)) (λ a d h at.
            get_elem?-modify_ne r.heap b a mark_lost
              (distinct_addresses r w k m a b h (current_at r m e).0 n)
            ∙ at))
  ]
]

register_other :
    (r : Registry)
    → WellFormed r
    → (k : String) (n : Connection) → n.machine_id ≢ k
    → current (register r n).0 k ≡ current r k
unfolding register
register_other r w k n ne = elim (Option-cases (current r n.machine_id)) [
  | inl e ↦ rw (e, register) (same_current r w k _ entry (λ a c h at. kept a c at))
  | inr ((b, old), e) ↦ elim (Bool-cases (leb n.generation old.generation)) [
    | inl t ↦ rw (e, register, t) (same_current r w k _ refl (λ a c h at. kept a c at))
    | inr t ↦
        rw (e, register, t)
          (same_current r w k _ entry (λ a c h at.
            get_elem?-modify_ne (r.heap ++ n ∷ []) b a mark_lost
              (distinct_addresses r w k n.machine_id a b h (current_at r n.machine_id e).0 ne)
            ∙ kept a c at))
  ]
]
  where
    entry : lookup k (insert n.machine_id (length r.heap) r.conns) ≡ lookup k r.conns
    entry =
        ground (arith, lookup-insert n.machine_id k (length r.heap) r.conns, eq_iff n.machine_id k)

    kept :
        (a : ℕ) (c : Connection)
        → get_elem? r.heap a ≡ some c
        → get_elem? (r.heap ++ n ∷ []) a ≡ some c
    kept a c at = get_elem?-append_left r.heap (n ∷ []) a (get_elem?-lt r.heap a at) ∙ at

close_machine_other :
    (r : Registry)
    → WellFormed r
    → (k m code reason : String) (written : Bool) → m ≢ k
    → current (close_machine r m code reason written).0 k ≡ current r k
unfolding close_machine
close_machine_other r w k m code reason written n = elim (Option-cases (current r m)) [
  | inl e ↦ rw (e, close_machine)
  | inr ((b, c), e) ↦ rw (e, close_machine) (update_other r w k m b _ (current_at r m e).0 n)
]

-- The machine that an operation names.
abbrev pub target : Op → Option String
target (registers machine connection generation now) = some machine
target (removes machine generation) = some machine
target (touches machine generation status now) = some machine
target (sets machine generation capabilities) = some machine
target (closes machine code reason written) = some machine
target (sweeps before written) = none
target (dismisses a code reason written) = none

named : {a b c : String} → some a ≡ some b → b ≢ c → a ≢ c
named e n p = n (ground arith)

pub apply_other :
    (r : Registry)
    → WellFormed r
    → (op : Op) (k m : String) → target op ≡ some m
    → m ≢ k
    → current (apply r op) k ≡ current r k
unfolding apply touch set_capabilities new_connection
apply_other r w (registers machine connection generation now) k m e n =
    register_other r w k _ (named e n)
apply_other r w (removes machine generation) k m e n =
    remove_other r w k machine generation (named e n)
apply_other r w (touches machine generation status now) k m e n =
    update_current_other r w k machine generation _ (named e n)
apply_other r w (sets machine generation capabilities) k m e n =
    update_current_other r w k machine generation _ (named e n)
apply_other r w (closes machine code reason written) k m e n =
    close_machine_other r w k machine code reason written (named e n)
apply_other r w (sweeps before written) k m e n = absurd (ground arith)
apply_other r w (dismisses a code reason written) k m e n = absurd (ground arith)

-- After any history, an operation that names one machine leaves the connection of every other
-- machine as it is.
pub other_machines_untouched :
    (ops : List Op) (op : Op) (k m : String)
    → target op ≡ some m
    → m ≢ k
    → current (apply (replay new_registry ops) op) k ≡ current (replay new_registry ops) k
other_machines_untouched ops op k m = apply_other _ (replay-WellFormed ops) op k m

module _ (r : Registry) (m : String) (b : ℕ) (c : Connection) (e : current r m ≡ some (b, c)) where
  remove_own :
      (current (remove r m c.generation) m ≡ none)
      × (get_elem? (remove r m c.generation).heap b ≡ some (mark_lost c))
  unfolding remove
  remove_own =
      let t : (c.generation == c.generation) ≡ true = ground arith in
      rw (e, remove, t)
        (
          current-none _ m (rw (lookup-delete m m r.conns, eq_refl m)),
          get_elem?-modify_self r.heap b mark_lost (current_at r m e).1,
        )

  update_own :
      (f : Connection → Connection)
      → ((update_current r c.generation f (current r m)).1 ≡ true)
        × (current (update_current r c.generation f (current r m)).0 m ≡ some (b, f c))
  unfolding update_current
  update_own f =
      let t : (c.generation == c.generation) ≡ true = ground arith in
      let (entry, at) = current_at r m e in
      rw (e, update_current, t)
        (refl, current_of _ m b (f c) entry (get_elem?-modify_self r.heap b f at))

clone_capabilities_lem : (items : List Descriptor) → clone_capabilities items ≡ items
unfolding clone_capabilities
clone_capabilities_lem [] = refl
clone_capabilities_lem (item ∷ items) = ap (◌∷◌ item) (clone_capabilities_lem items)

-- Where the caller's generation is the current one, `Touch` and `SetCapabilities` answer true and
-- change that connection and nothing else of it than they say, and `Remove` ends the entry and marks
-- the connection lost.
pub owner_rules :
    (r : Registry) (m : String) (b : ℕ) (c : Connection) (status : String) (now : ℕ)
    (capabilities : List Descriptor)
    → current r m ≡ some (b, c)
    → (current (remove r m c.generation) m ≡ none)
      × (get_elem? (remove r m c.generation).heap b ≡ some (mark_lost c))
      × ((touch r m c.generation status now).1 ≡ true)
      × (current (touch r m c.generation status now).0 m
          ≡ some (
            b,
            record c { last_seen_at = now; status = if str_eq status "" then c.status else status },
          ))
      × ((set_capabilities r m c.generation capabilities).1 ≡ true)
      × (current (set_capabilities r m c.generation capabilities).0 m
          ≡ some (b, record c { capabilities = capabilities }))
unfolding touch set_capabilities touched
owner_rules r m b c status now capabilities e =
    let (gone, lost) = remove_own r m b c e in
    let (touched_true, after_touch) = update_own r m b c e (touched status now) in
    let (set_true, after_set) =
      update_own r m b c e (λ c. record c { capabilities = clone_capabilities capabilities }) in
    (
      gone,
      lost,
      touched_true,
      after_touch,
      set_true,
      after_set
          ∙ ap (λ cs. some (b, record c { capabilities = cs }))
              (clone_capabilities_lem capabilities),
    )
