-- ===== src/Hub/RegistrationGuard/Quota.antt =====
-- The limits that the limiter keeps, over any calls.
use fast_spider.Prelude.{
  ℕ, suc, ◌+◌, ◌≤◌, ◌<◌, ◌≡◌, refl, ◌∙◌, Bool, true, false, ◌||◌, List, [], ◌∷◌, Option, none, some,
  String, arith, if◌then◌else◌, ltb, leb, ◌==◌, str_eq, eq_iff, eq_refl, length, lookup, keep_if,
  All, UniqueKeys, insert-UniqueKeys, keep_if-UniqueKeys, length-insert, lookup-insert,
  lookup-insert_self, lookup-keep_if, lookup-keep_if-some, length-keep_if-le, Bool-cases, if-cases,
  inl, inr, Option-cases,
}
use fast_spider.Hub.RegistrationGuard.{
  RegistrationGuard, WindowEntry, sweep, open_window, allow_entry, allow_named, is_current,
}

-- The calls from one source are granted or refused one by one.
unfoldable pub grants : String → RegistrationGuard → List (String × ℕ) → ℕ
grants source g [] = 0
grants source g ((s, now) ∷ calls) =
    let (g', granted) = allow_named g s now in
    let rest = grants source g' calls in
    if granted then (if str_eq s source then suc rest else rest) else rest

unfoldable pub after_calls : RegistrationGuard → List (String × ℕ) → RegistrationGuard
after_calls g [] = g
after_calls g ((s, now) ∷ calls) = after_calls (allow_named g s now).0 calls

abbrev SameLimits : RegistrationGuard → RegistrationGuard → Type 0
SameLimits g g' =
    (g'.window ≡ g.window) × (g'.per_window ≡ g.per_window) × (g'.max_sources ≡ g.max_sources)

allow_entry-SameLimits :
    (g : RegistrationGuard) (s : String) (now : ℕ) (o : Option WindowEntry)
    → SameLimits g (allow_entry g s now o).0
unfolding allow_entry
allow_entry-SameLimits g s now none = ground arith
allow_entry-SameLimits g s now (some e) = ground arith

sweep-SameLimits : (g : RegistrationGuard) (now : ℕ) → SameLimits g (sweep g now)
unfolding sweep
sweep-SameLimits g now = ground arith

allow_named-SameLimits :
    (g : RegistrationGuard) (s : String) (now : ℕ) → SameLimits g (allow_named g s now).0
unfolding allow_named
allow_named-SameLimits g s now =
    let (a, b, c) = sweep-SameLimits g now in
    let (a', b', c') = allow_entry-SameLimits (sweep g now) s now _ in (a' ∙ a, b' ∙ b, c' ∙ c)

lookup-sweep :
    (g : RegistrationGuard) (now : ℕ) (k : String) (e : WindowEntry)
    → UniqueKeys g.entries
    → lookup k g.entries ≡ some e
    → is_current g.window now e ≡ true
    → lookup k (sweep g now).entries ≡ some e
unfolding sweep
lookup-sweep g now k e u at h =
    ground (arith, lookup-keep_if-some (λ p. is_current g.window now p.1) k e g.entries u at)

allow_entry_other :
    (g : RegistrationGuard) (s source : String) (now : ℕ) (o : Option WindowEntry)
    → str_eq s source ≡ false
    → lookup source (allow_entry g s now o).0.entries ≡ lookup source g.entries
unfolding allow_entry
allow_entry_other g s source now none n =
    ground (arith, lookup-insert s source (record { count = 1; window_start = now }) g.entries)
allow_entry_other g s source now (some e) n = ground (
  arith,
  lookup-insert s source (record { count = 1; window_start = now }) g.entries,
  lookup-insert s source (record e { count = suc e.count }) g.entries,
)

-- One call, seen from a source that is in a window: the window stays open, the count grows with
-- each grant of its own, and such a grant leaves it within the limit.
abbrev Stepped : ℕ → String → String → WindowEntry → RegistrationGuard × Bool → Type 0
Stepped limit s source e (g', granted) =
    (e' : WindowEntry) × (lookup source g'.entries ≡ some e')
    × (e'.window_start ≡ e.window_start)
    × (e'.count ≡ (if granted then (if str_eq s source then suc e.count else e.count) else e.count))
    × (e.count ≤ limit → e'.count ≤ limit)

allow_entry_own :
    (g : RegistrationGuard) (source : String) (now limit : ℕ) (e : WindowEntry)
    → lookup source g.entries ≡ some e
    → is_current g.window now e ≡ true
    → g.per_window ≡ limit
    → Stepped limit source source e (allow_entry g source now (some e))
unfolding allow_entry
allow_entry_own g source now limit e at h lim = elim (Bool-cases (leb g.per_window e.count)) [
  | inl t ↦ rw (h, t) (e, at, refl, refl, λ le. le)
  | inr t ↦
      rw (h, t)
        (
          record e { count = suc e.count },
          lookup-insert_self source _ g.entries,
          refl,
          rw (eq_refl source),
          λ le. ground arith,
        )
]

window_step :
    (g : RegistrationGuard) (s source : String) (now : ℕ) (e : WindowEntry)
    → UniqueKeys g.entries
    → lookup source g.entries ≡ some e
    → is_current g.window now e ≡ true
    → Stepped g.per_window s source e (allow_named g s now)
unfolding allow_named
window_step g s source now e u at h =
    let kept = lookup-sweep g now source e u at h in
    let (same_window, same_limit, _) = sweep-SameLimits g now in
    elim (Bool-cases (str_eq s source)) [
      | inr n ↦
          (e, allow_entry_other (sweep g now) s source now _ n ∙ kept, refl, ground arith, λ le. le)
      | inl same ↦
          let own =
            allow_entry_own (sweep g now) source now g.per_window e kept (rw same_window h)
              same_limit in
          rw ((eq_iff s source).0 same, kept) own
    ]

open_window-UniqueKeys :
    (g : RegistrationGuard) (s : String) (now : ℕ)
    → UniqueKeys g.entries
    → UniqueKeys (open_window g s now).0.entries
unfolding open_window
open_window-UniqueKeys g s now u =
    if-cases (λ (r : RegistrationGuard × Bool). UniqueKeys r.0.entries)
      (leb g.max_sources (length g.entries)) (λ t. u) (λ t. insert-UniqueKeys s _ g.entries u)

allow_entry-UniqueKeys :
    (g : RegistrationGuard) (s : String) (now : ℕ) (o : Option WindowEntry)
    → UniqueKeys g.entries
    → UniqueKeys (allow_entry g s now o).0.entries
unfolding allow_entry
allow_entry-UniqueKeys g s now none u = open_window-UniqueKeys g s now u
allow_entry-UniqueKeys g s now (some e) u =
    if-cases (λ (r : RegistrationGuard × Bool). UniqueKeys r.0.entries) (is_current g.window now e)
      (λ t.
        if-cases (λ (r : RegistrationGuard × Bool). UniqueKeys r.0.entries)
          (leb g.per_window e.count) (λ t. u) (λ t. insert-UniqueKeys s _ g.entries u))
      (λ t. open_window-UniqueKeys g s now u)

sweep-UniqueKeys :
    (g : RegistrationGuard) (now : ℕ) → UniqueKeys g.entries → UniqueKeys (sweep g now).entries
unfolding sweep
sweep-UniqueKeys g now u =
    if-cases (λ (g : RegistrationGuard). UniqueKeys g.entries)
      (g.next_sweep == 0 || leb g.next_sweep now)
      {x = record g {
        entries = keep_if (λ p. is_current g.window now p.1) g.entries;
        next_sweep = now + g.window;
      }}
      {y = g} (λ t. keep_if-UniqueKeys (λ p. is_current g.window now p.1) g.entries u) (λ t. u)

allow_named-UniqueKeys :
    (g : RegistrationGuard) (s : String) (now : ℕ)
    → UniqueKeys g.entries
    → UniqueKeys (allow_named g s now).0.entries
unfolding allow_named
allow_named-UniqueKeys g s now u =
    allow_entry-UniqueKeys (sweep g now) s now _ (sweep-UniqueKeys g now u)

-- Calls whose times all lie in the window of an entry.
abbrev pub InWindow : ℕ → ℕ → List (String × ℕ) → Type 0
InWindow start window = All (λ c. ltb c.1 (start + window) ≡ true)

grants_bounded :
    (calls : List (String × ℕ)) (g : RegistrationGuard) (source : String) (e : WindowEntry)
    → UniqueKeys g.entries
    → lookup source g.entries ≡ some e
    → e.count ≤ g.per_window
    → InWindow e.window_start g.window calls
    → grants source g calls + e.count ≤ g.per_window
unfolding grants
grants_bounded [] g source e u at le w = omega arith
grants_bounded ((s, now) ∷ calls) g source e u at le w =
    let (e', at', start, count, kept) = window_step g s source now e u at w.0 in
    let (same_window, same_limit, _) = allow_named-SameLimits g s now in
    let rest =
      grants_bounded calls (allow_named g s now).0 source e' (allow_named-UniqueKeys g s now u) at'
        (rw same_limit (kept le)) (rw (start, same_window) w.1) in
    ground (arith, rest, count, same_limit)

-- Before its window, a source finds no current entry after the sweep either.
lookup-sweep_expired :
    (g : RegistrationGuard) (now : ℕ) (k : String) {e : WindowEntry}
    → UniqueKeys g.entries
    → ((e : WindowEntry) → lookup k g.entries ≡ some e → is_current g.window now e ≡ false)
    → lookup k (sweep g now).entries ≡ some e
    → is_current g.window now e ≡ false
unfolding sweep
lookup-sweep_expired g now k {e = e} u old at = elim (Option-cases (lookup k g.entries)) [
  | inl absent ↦
      absurd (ground (arith, lookup-keep_if (λ p. is_current g.window now p.1) k g.entries absent))
  | inr (d, found) ↦ ground (
    arith,
    old d found,
    lookup-keep_if-some (λ p. is_current g.window now p.1) k d g.entries u found,
  )
]

opens :
    (g : RegistrationGuard) (s : String) (now : ℕ) (o : Option WindowEntry)
    → ((e : WindowEntry) → o ≡ some e → is_current g.window now e ≡ false)
    → allow_entry g s now o ≡ open_window g s now
unfolding allow_entry
opens g s now none old = refl
opens g s now (some e) old = rw (old e refl) refl

open_window_entry :
    (g : RegistrationGuard) (s : String) (now : ℕ)
    → (open_window g s now).1 ≡ true
    → lookup s (open_window g s now).0.entries ≡ some (record { count = 1; window_start = now })
unfolding open_window
open_window_entry g s now h =
    ground (arith, lookup-insert_self s (record { count = 1; window_start = now }) g.entries)

-- If a source with no current window gets a grant, then among that call and any later calls, of any
-- sources, whose times are before the end of the window that it opens, the source gets at most
-- `perWindow` grants.
pub quota-InWindow :
    (g : RegistrationGuard) (source : String) (now : ℕ) (calls : List (String × ℕ))
    → UniqueKeys g.entries
    → 0 < g.per_window
    → ((e : WindowEntry) → lookup source g.entries ≡ some e → is_current g.window now e ≡ false)
    → (allow_named g source now).1 ≡ true
    → InWindow now g.window calls
    → grants source g ((source, now) ∷ calls) ≤ g.per_window
unfolding grants
quota-InWindow g source now calls u some_grants old granted w =
    let (same_window, same_limit, _) = allow_named-SameLimits g source now in
    let (sweep_window, _, _) = sweep-SameLimits g now in
    let opened : allow_named g source now ≡ open_window (sweep g now) source now =
      unfold allow_named in
      opens (sweep g now) source now _
        (λ e at. rw sweep_window (lookup-sweep_expired g now source u old at)) in
    let at : lookup source (allow_named g source now).0.entries
        ≡ some (record { count = 1; window_start = now }) =
      rw opened (open_window_entry (sweep g now) source now (rw opened at granted)) in
    let rest =
      grants_bounded calls (allow_named g source now).0 source _
        (allow_named-UniqueKeys g source now u) at (omega (arith, same_limit)) (rw same_window w) in
    ground (arith, rest, same_limit, eq_refl source)

allow_entry_sources :
    (g : RegistrationGuard) (s : String) (now : ℕ) (o : Option WindowEntry)
    → lookup s g.entries ≡ o
    → length g.entries ≤ g.max_sources
    → length (allow_entry g s now o).0.entries ≤ g.max_sources
unfolding allow_entry
allow_entry_sources g s now none at le =
    ground (arith, length-insert s (record { count = 1; window_start = now }) g.entries)
allow_entry_sources g s now (some e) at le = ground (
  arith,
  length-insert s (record { count = 1; window_start = now }) g.entries,
  length-insert s (record e { count = suc e.count }) g.entries,
)

sweep-sources :
    (g : RegistrationGuard) (now : ℕ)
    → length g.entries ≤ g.max_sources
    → length (sweep g now).entries ≤ (sweep g now).max_sources
unfolding sweep
sweep-sources g now le =
    ground (arith, length-keep_if-le (λ p. is_current g.window now p.1) g.entries)

allow_named_sources :
    (g : RegistrationGuard) (s : String) (now : ℕ)
    → length g.entries ≤ g.max_sources
    → length (allow_named g s now).0.entries ≤ (allow_named g s now).0.max_sources
unfolding allow_named
allow_named_sources g s now le =
    let swept = sweep-sources g now le in
    let (_, _, same) =
      allow_entry-SameLimits (sweep g now) s now (lookup s (sweep g now).entries) in
    rw same (allow_entry_sources (sweep g now) s now _ refl swept)

-- From a guard that lists no source twice and no more sources than allowed, no calls lead to one
-- that does.
pub sources_bounded :
    (calls : List (String × ℕ)) (g : RegistrationGuard)
    → UniqueKeys g.entries
    → length g.entries ≤ g.max_sources
    → UniqueKeys (after_calls g calls).entries
      × (length (after_calls g calls).entries ≤ (after_calls g calls).max_sources)
unfolding after_calls
sources_bounded [] g u le = (u, le)
sources_bounded ((s, now) ∷ calls) g u le =
    sources_bounded calls (allow_named g s now).0 (allow_named-UniqueKeys g s now u)
      (allow_named_sources g s now le)
