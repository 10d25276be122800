-- ===== src/Hub/Registry/Current.antt =====
-- What a machine's entry leads to, and what leaves it alone.
use fast_spider.Prelude.{
  ℕ, ◌≡◌, sym, ◌∙◌, inl, inr, none, some, String, arith, get_elem?, lookup, Option-cases,
}
use fast_spider.Hub.Connection.{Connection}
use fast_spider.Hub.Registry.{Registry, current}
use fast_spider.Hub.Registry.Invariant.{WellFormed}

-- What `current` finds is the entry's object.
pub current_at :
    (r : Registry) (k : String) {a : ℕ} {c : Connection}
    → current r k ≡ some (a, c)
    → (lookup k r.conns ≡ some a) × (get_elem? r.heap a ≡ some c)
unfolding current
current_at r k e = ground arith

pub current_of :
    (r : Registry) (k : String) (a : ℕ) (c : Connection)
    → lookup k r.conns ≡ some a
    → get_elem? r.heap a ≡ some c
    → current r k ≡ some (a, c)
unfolding current
current_of r k a c e f = ground arith

pub current-none : (r : Registry) (k : String) → lookup k r.conns ≡ none → current r k ≡ none
unfolding current
current-none r k e = ground arith

-- A change elsewhere does not change what a machine's entry leads to.
pub same_current :
    (r : Registry)
    → WellFormed r
    → (k : String) (r' : Registry) → lookup k r'.conns ≡ lookup k r.conns
    → ((a : ℕ) (c : Connection)
        → lookup k r.conns ≡ some a
        → get_elem? r.heap a ≡ some c
        → get_elem? r'.heap a ≡ some c)
    → current r' k ≡ current r k
same_current r w k r' same keep = elim (Option-cases (lookup k r.conns)) [
  | inl e ↦ current-none r' k (same ∙ e) ∙ sym (current-none r k e)
  | inr (a, e) ↦
      let (c, at, _) = w.resolved k a e in
      current_of r' k a c (same ∙ e) (keep a c e at) ∙ sym (current_of r k a c e at)
]
