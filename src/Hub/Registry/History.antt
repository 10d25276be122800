-- ===== src/Hub/Registry/History.antt =====
-- What the goroutines of the Hub do to the registry, in any order: histories of operations from an
-- empty registry. What an operation does under the mutex is one step. `CloseMachine` and `CloseStale`
-- say goodbye after they gave the mutex back: `closes` and `sweeps` are the calls that nothing
-- interrupts, and `dismisses` is one farewell by itself, to an object found at any earlier moment, so
-- that a call with other operations in between is a row of `dismisses` among them.
use fast_spider.Prelude.{
  ℕ, ◌≡◌, refl, ap, ◌∙◌, inl, inr, Bool, true, List, [], ◌∷◌, ◌++◌, Option, none, some, String,
  arith, length, get_elem?, modify, lookup, Bool-cases, Option-cases, leb, ◌==◌, get_elem?-lt,
  get_elem?-append_last, get_elem?-append_left, get_elem?-modify_self, get_elem?-modify_ne,
}
use native.Mathlib.Decide.{ℕ_discrete}
use fast_spider.Hub.Connection.{
  Connection, Descriptor, IsLive, mark_lost, is_closed, new_connection,
}
use fast_spider.Hub.Registry.{
  Registry, new_registry, current, register, register_over, remove, remove_found, touch,
  set_capabilities, update_current, close_machine, close_stale, close_all, clone_capabilities,
  stale_addresses, say_goodbye,
}
use fast_spider.Hub.Registry.Invariant.{
  WellFormed, IsTame, new_connection-IsLive, mark_lost-IsTame, touched-IsTame, say_goodbye-IsTame,
  modify-WellFormed, allocate-WellFormed, insert-WellFormed, delete-WellFormed,
}

pub data Op : Type 0 where
  registers : String → String → ℕ → ℕ → Op
  removes : String → ℕ → Op
  touches : String → ℕ → String → ℕ → Op
  sets : String → ℕ → List Descriptor → Op
  closes : String → String → String → Bool → Op
  sweeps : ℕ → (ℕ → Bool) → Op
  dismisses : ℕ → String → String → Bool → Op

unfoldable pub apply : Registry → Op → Registry
apply r (registers machine connection generation now) =
    (register r (new_connection machine connection generation now)).0
apply r (removes machine generation) = remove r machine generation
apply r (touches machine generation status now) = (touch r machine generation status now).0
apply r (sets machine generation capabilities) =
    (set_capabilities r machine generation capabilities).0
apply r (closes machine code reason written) = (close_machine r machine code reason written).0
apply r (sweeps before written) = (close_stale r before written).0
apply r (dismisses a code reason written) = record r {
  heap = modify r.heap a (say_goodbye code reason written);
}

unfoldable pub replay : Registry → List Op → Registry
replay r [] = r
replay r (op ∷ ops) = replay (apply r op) ops

-- The two ways in which an operation can leave an object behind: as it was, or changed tamely.
abbrev Keeps : Registry → Registry → Type 0
Keeps r r' =
    (a : ℕ) (c : Connection)
    → get_elem? r.heap a ≡ some c
    → (d : Connection) × (get_elem? r'.heap a ≡ some d)
      × (is_closed c.closed ≡ true → is_closed d.closed ≡ true)

Keeps-refl : (r r' : Registry) → r'.heap ≡ r.heap → Keeps r r'
Keeps-refl r r' e a c h = (c, ap (λ cs. get_elem? cs a) e ∙ h, λ f. f)

Keeps-modify :
    (heap : List Connection) (b : ℕ) (f : Connection → Connection)
    → IsTame f
    → (a : ℕ) (c : Connection) → get_elem? heap a ≡ some c
    → (d : Connection) × (get_elem? (modify heap b f) a ≡ some d)
      × (is_closed c.closed ≡ true → is_closed d.closed ≡ true)
Keeps-modify heap b f t a c h = elim (ℕ_discrete b a) [
  | yes p ↦ (f c, rw p (get_elem?-modify_self heap a f h), t.keeps_lost c)
  | no n ↦ (c, get_elem?-modify_ne heap b a f n ∙ h, λ g. g)
]

Keeps-append :
    (heap : List Connection) (n : Connection) (a : ℕ) (c : Connection)
    → get_elem? heap a ≡ some c
    → get_elem? (heap ++ n ∷ []) a ≡ some c
Keeps-append heap n a c h = get_elem?-append_left heap _ a (get_elem?-lt heap a h) ∙ h

abbrev Good : Registry → Registry → Type 0
Good r r' = WellFormed r' × Keeps r r'

Good-refl : (r : Registry) → WellFormed r → Good r r
Good-refl r w = (w, Keeps-refl r r refl)

update-Good :
    (r : Registry) (b : ℕ) (f : Connection → Connection)
    → IsTame f
    → WellFormed r
    → Good r (record r { heap = modify r.heap b f })
update-Good r b f t w = (modify-WellFormed r b f t w, Keeps-modify r.heap b f t)

register_over-Good :
    (r : Registry) (n : Connection) (o : Option (ℕ × Connection))
    → IsLive n
    → WellFormed r
    → Good r (register_over r n o).0
unfolding register_over
register_over-Good r n none v w = (
  insert-WellFormed _ n (length r.heap) (get_elem?-append_last r.heap n)
      (allocate-WellFormed r n v w),
  λ a c h. (c, Keeps-append r.heap n a c h, λ f. f),
)
register_over-Good r n (some (b, old)) v w = elim (Bool-cases (leb n.generation old.generation)) [
  | inl e ↦
      rw (e, register_over)
        (allocate-WellFormed r n v w, λ a c h. (c, Keeps-append r.heap n a c h, λ f. f))
  | inr e ↦
      rw (e, register_over)
        (
          modify-WellFormed _ b mark_lost mark_lost-IsTame (
              insert-WellFormed _ n (length r.heap) (get_elem?-append_last r.heap n)
                (allocate-WellFormed r n v w)),
          λ a c h.
              Keeps-modify (r.heap ++ n ∷ []) b mark_lost mark_lost-IsTame a c
                (Keeps-append r.heap n a c h),
        )
]

update_current-Good :
    (r : Registry) (g : ℕ) (f : Connection → Connection) (o : Option (ℕ × Connection))
    → IsTame f
    → WellFormed r
    → Good r (update_current r g f o).0
unfolding update_current
update_current-Good r g f none t w = Good-refl r w
update_current-Good r g f (some (b, c)) t w = elim (Bool-cases (c.generation == g)) [
  | inl e ↦ rw (e, update_current) (update-Good r b f t w)
  | inr e ↦ rw (e, update_current) (Good-refl r w)
]

remove_found-Good :
    (r : Registry) (k : String) (g : ℕ) (o : Option (ℕ × Connection))
    → WellFormed r
    → Good r (remove_found r k g o)
unfolding remove_found
remove_found-Good r k g none w = Good-refl r w
remove_found-Good r k g (some (b, c)) w = elim (Bool-cases (c.generation == g)) [
  | inl e ↦
      rw (e, remove_found)
        (
          modify-WellFormed _ b mark_lost mark_lost-IsTame (delete-WellFormed r k w),
          Keeps-modify r.heap b mark_lost mark_lost-IsTame,
        )
  | inr e ↦ rw (e, remove_found) (Good-refl r w)
]

close_all-Good :
    (r : Registry) (stale : List ℕ) (written : ℕ → Bool)
    → WellFormed r
    → Good r (record r { heap = close_all r.heap stale written })
unfolding close_all
close_all-Good r [] written w = Good-refl r w
close_all-Good r (b ∷ stale) written w =
    let t = say_goodbye-IsTame "HEARTBEAT_TIMEOUT" "heartbeat timeout" (written b) in
    let (w', keeps) = close_all-Good _ stale written (modify-WellFormed r b _ t w) in
    (
      w',
      λ a c h.
          let (d, found, lost) = Keeps-modify r.heap b _ t a c h in
          let (e, found', lost') = keeps a d found in (e, found', λ f. lost' (lost f)),
    )

close_machine-Good :
    (r : Registry) (machine code reason : String) (written : Bool)
    → WellFormed r
    → Good r (close_machine r machine code reason written).0
unfolding close_machine
close_machine-Good r machine code reason written w = elim (Option-cases (current r machine)) [
  | inl e ↦ rw (e, close_machine) (Good-refl r w)
  | inr (p, e) ↦
      rw (e, close_machine) (update-Good r p.0 _ (say_goodbye-IsTame code reason written) w)
]

pub sets-IsTame :
    (capabilities : List Descriptor) → IsTame (λ c. record c { capabilities = capabilities })
sets-IsTame capabilities = record {
  same_machine = λ c. refl;
  same_generation = λ c. refl;
  keeps_live = λ c v. record { signal_made = v.signal_made; once_agrees = v.once_agrees };
  keeps_lost = λ c e. e;
}

apply-Good : (r : Registry) (op : Op) → WellFormed r → Good r (apply r op)
unfolding apply register remove touch set_capabilities close_stale
apply-Good r (registers machine connection generation now) w =
    register_over-Good r _ _ (new_connection-IsLive machine connection generation now) w
apply-Good r (removes machine generation) w = remove_found-Good r machine generation _ w
apply-Good r (touches machine generation status now) w =
    update_current-Good r generation _ _ (touched-IsTame status now) w
apply-Good r (sets machine generation capabilities) w =
    update_current-Good r generation _ _ (sets-IsTame (clone_capabilities capabilities)) w
apply-Good r (closes machine code reason written) w =
    close_machine-Good r machine code reason written w
apply-Good r (sweeps before written) w =
    close_all-Good r (stale_addresses r.heap r.conns before) written w
apply-Good r (dismisses a code reason written) w =
    update-Good r a _ (say_goodbye-IsTame code reason written) w

pub apply-WellFormed : (r : Registry) (op : Op) → WellFormed r → WellFormed (apply r op)
apply-WellFormed r op w = (apply-Good r op w).0

new_registry-WellFormed : WellFormed new_registry
unfolding new_registry lookup
new_registry-WellFormed = record {
  unique = tt;
  resolved = λ k a e. absurd (ground arith);
  live = λ a c e. absurd (ground arith);
}

replay-Good : (r : Registry) (ops : List Op) → WellFormed r → Good r (replay r ops)
unfolding replay
replay-Good r [] w = Good-refl r w
replay-Good r (op ∷ ops) w =
    let (w', keeps) = apply-Good r op w in
    let (w'', keeps') = replay-Good (apply r op) ops w' in
    (
      w'',
      λ a c h.
          let (d, found, lost) = keeps a c h in
          let (e, found', lost') = keeps' a d found in (e, found', λ f. lost' (lost f)),
    )

-- Every history leaves a registry without double entries, whose entries lead to live objects of
-- their machines.
pub replay-WellFormed : (ops : List Op) → WellFormed (replay new_registry ops)
replay-WellFormed ops = (replay-Good new_registry ops new_registry-WellFormed).0

-- A connection that is lost at some moment is lost after every further history, also when it is
-- still in the registry.
pub lost_for_good :
    (before after : List Op) (a : ℕ) (c : Connection)
    → get_elem? (replay new_registry before).heap a ≡ some c
    → is_closed c.closed ≡ true
    → (d : Connection) × (get_elem? (replay (replay new_registry before) after).heap a ≡ some d)
      × (is_closed d.closed ≡ true)
lost_for_good before after a c h lost =
    let (d, found, keeps) =
      (replay-Good (replay new_registry before) after (replay-WellFormed before)).1 a c h in
    (d, found, keeps lost)
