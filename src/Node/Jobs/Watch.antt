-- ===== src/Node/Jobs/Watch.antt =====
-- The event log against the history of what was appended: what is kept, and what a watcher sees.
use mathlib.Core.List.{map-append, append-nil, append_assoc}
use mathlib.Core.Path.{ap₂, ◌≡⟨◌⟩◌, ◌∎}
use native.Mathlib.Decide.{ℕ_discrete, dec_le}
use Prim.Native.Nat.{max}
use fast_spider.Prelude.{
  ℕ, suc, ◌+◌, ◌-◌, ◌≡◌, ◌≤◌, refl, sym, ap, ◌∙◌, false, List, [], ◌∷◌, ◌++◌, Option, none, some,
  ltb, length, drop, keep_if, length-append, arith, map, drop-drop, drop-nil, drop_append_left,
  drop-length_append, map-drop, length-map,
}
use fast_spider.Node.Jobs.Job.{
  Text, Job, JobEvent, Writer, append_event, snapshot_after, write_log, wake, log_line,
}
use fast_spider.Node.Jobs.Events.{
  Numbered, IsBounded, IsWriter, text_bytes-append, Numbered-append, drop_oldest_ends,
  write_log_same, write_log_small,
}

abbrev pub payload : JobEvent → Text × Text
payload e = (e.kind, e.text)

write_log_notify :
    (write : Writer) (line : Text) (j : Job) → suc (write_log write line j).notify ≡ suc j.notify
unfolding write_log
write_log_notify write line j = ground arith

module _ (format_time : ℕ → Text) (write : Writer) (fits : IsWriter write) where
  -- The event that an append adds, and the list it is added to.
  abbrev added : Text → Text → ℕ → Job → JobEvent
  added kind text now j = record {
    sequence = suc j.next_sequence;
    kind = kind;
    text = text;
    timestamp = now;
  }

  -- An append never panics, keeps the limits and the numbering, drops only from the front, and
  -- wakes the watchers.
  pub append_event-IsBounded :
      (kind text : Text) (now : ℕ) (j : Job)
      → IsBounded j
      → (j' : Job) × (append_event format_time write kind text now j ≡ some j')
        × IsBounded j'
        × (j'.next_sequence ≡ suc j.next_sequence)
        × (j'.notify ≡ suc j.notify)
        × ((gone : List JobEvent) × (j.events ++ added kind text now j ∷ [] ≡ gone ++ j'.events))
  unfolding append_event
  append_event-IsBounded kind text now j b =
      let e = added kind text now j in
      let j1 = record j {
        next_sequence = suc j.next_sequence;
        events = j.events ++ e ∷ [];
        event_bytes = j.event_bytes + length text;
      } in
      let j2 = write_log write (log_line format_time e) j1 in
      let (same_events, same_bytes, same_next, same_before) =
        write_log_same write (log_line format_time e) j1 in
      let (out, found, (m, c, few, small, (gone, split))) =
        drop_oldest_ends j2.events j2.event_bytes j2.truncated_before j2.next_sequence
          (rw (same_events, same_next, same_before)
            (Numbered-append j.truncated_before j.next_sequence j.events e b.numbered refl))
          (rw (same_events, same_bytes)
            (omega (arith, b.counted, text_bytes-append j.events (e ∷ [])))) in
      (
        record j2 {
          events = out.0;
          event_bytes = out.1;
          truncated_before = out.2;
          notify = suc j2.notify;
        },
        ap (wake j2) found,
        record {
          numbered = m;
          counted = c;
          few = few;
          small = small;
          log_small = write_log_small write (log_line format_time e) j1 fits b.log_small;
        },
        same_next,
        write_log_notify write (log_line format_time e) j1,
        (gone, sym same_events ∙ split),
      )

-- The log of a job after the given payloads were appended, from the first one on.
pub record Holds (ps : List (Text × Text)) (j : Job) : Type 0 where
  pub bounded : IsBounded j
  pub total : j.next_sequence ≡ length ps
  pub newest : map payload j.events ≡ drop j.truncated_before ps

Numbered-length : (from to : ℕ) (es : List JobEvent) → Numbered from es to → from + length es ≡ to
Numbered-length from to [] n = omega arith
Numbered-length from to (e ∷ es) n = omega (arith, Numbered-length (suc from) to es n.1)

-- A tail of a numbered list starts after as many events as are missing.
Numbered-tail :
    (from to before : ℕ) (gone es : List JobEvent)
    → Numbered from (gone ++ es) to
    → Numbered before es to
    → before ≡ from + length gone
Numbered-tail from to before gone es n m = omega (
  arith,
  Numbered-length from to (gone ++ es) n,
  Numbered-length before to es m,
  length-append gone es,
)

keep_all :
    (cursor from to : ℕ) (es : List JobEvent)
    → Numbered from es to
    → cursor ≤ from
    → keep_if (λ e. ltb cursor e.sequence) es ≡ es
keep_all cursor from to [] n h = refl
keep_all cursor from to (e ∷ es) n h = ground (arith, keep_all cursor (suc from) to es n.1)

keep_after :
    (cursor from to : ℕ) (es : List JobEvent)
    → Numbered from es to
    → from ≤ cursor
    → keep_if (λ e. ltb cursor e.sequence) es ≡ drop (cursor - from) es
keep_after cursor from to [] n h = sym (drop-nil (cursor - from))
keep_after cursor from to (e ∷ es) n h = elim (ℕ_discrete cursor from) [
  | yes p ↦
      let none_gone : cursor - from ≡ 0 = omega arith in
      rw none_gone (keep_all cursor from to (e ∷ es) n (omega arith))
  | no q ↦
      let seen : ltb cursor e.sequence ≡ false = ground arith in
      let one_more : cursor - from ≡ suc (cursor - suc from) = omega arith in
      rw (seen, one_more) (keep_after cursor (suc from) to es n.1 (omega arith))
]

module _ (format_time : ℕ → Text) (write : Writer) (fits : IsWriter write) where
  append_event-Holds :
      (ps : List (Text × Text)) (kind text : Text) (now : ℕ) (j : Job)
      → Holds ps j
      → (j' : Job) × (append_event format_time write kind text now j ≡ some j')
        × Holds (ps ++ (kind, text) ∷ []) j'
  append_event-Holds ps kind text now j h =
      let e = added format_time write fits kind text now j in
      let (j', found, b, next, _, (gone, split)) =
        append_event-IsBounded format_time write fits kind text now j h.bounded in
      let before : j'.truncated_before ≡ j.truncated_before + length gone =
        Numbered-tail j.truncated_before j'.next_sequence j'.truncated_before gone j'.events
          (rw (← split, next)
            (Numbered-append j.truncated_before j.next_sequence j.events e h.bounded.numbered refl))
          b.numbered in
      let early : j.truncated_before ≤ length ps = omega (
        arith,
        h.total,
        Numbered-length j.truncated_before j.next_sequence j.events h.bounded.numbered,
      ) in
      (
        j',
        found,
        record {
          bounded = b;
          total = omega (arith, next, h.total, length-append ps ((kind, text) ∷ []));
          newest =
              map payload j'.events
              ≡⟨ sym (drop-length_append (map payload gone) (map payload j'.events)) ⟩
                drop (length (map payload gone)) (map payload gone ++ map payload j'.events)
              ≡⟨ ap₂ drop (length-map payload gone) (
                  sym (map-append payload gone j'.events)
                  ∙ ap (map payload) (sym split)
                  ∙ map-append payload j.events (e ∷ [])) ⟩
                drop (length gone) (map payload j.events ++ (kind, text) ∷ [])
              ≡⟨ ap (λ xs. drop (length gone) (xs ++ (kind, text) ∷ [])) h.newest ⟩
                drop (length gone) (drop j.truncated_before ps ++ (kind, text) ∷ [])
              ≡⟨ ap (drop (length gone)) (sym (drop_append_left j.truncated_before ps _ early)) ⟩
                drop (length gone) (drop j.truncated_before (ps ++ (kind, text) ∷ []))
              ≡⟨ drop-drop (length gone) j.truncated_before _
                ∙ ap (λ n. drop n (ps ++ (kind, text) ∷ [])) (sym before) ⟩
                drop j'.truncated_before (ps ++ (kind, text) ∷ []) ∎;
        },
      )

  pub snapshot-Holds :
      (ps : List (Text × Text)) (j : Job) (cursor : ℕ)
      → Holds ps j
      → (j.truncated_before ≤ cursor
          → map payload (snapshot_after cursor j).0.events ≡ drop cursor ps)
        × (cursor ≤ j.truncated_before
            → map payload (snapshot_after cursor j).0.events ≡ drop j.truncated_before ps)
  unfolding snapshot_after
  snapshot-Holds ps j cursor h = (
    λ le.
        ap (map payload)
          (keep_after cursor j.truncated_before j.next_sequence j.events h.bounded.numbered le)
        ∙ map-drop payload (cursor - j.truncated_before) j.events
        ∙ ap (drop (cursor - j.truncated_before)) h.newest
        ∙ drop-drop (cursor - j.truncated_before) j.truncated_before ps
        ∙ ap (λ n. drop n ps) (omega arith),
    λ le.
        ap (map payload)
          (keep_all cursor j.truncated_before j.next_sequence j.events h.bounded.numbered le)
        ∙ h.newest,
  )

  -- The calls of `appendEvent` on a job, in order.
  unfoldable pub append_all : List (Text × Text × ℕ) → Job → Option Job
  append_all [] j = some j
  append_all ((kind, text, now) ∷ ps) j = elim (append_event format_time write kind text now j) [
    | none ↦ none
    | some j' ↦ append_all ps j'
  ]

  append_all-Holds :
      (done : List (Text × Text)) (ps : List (Text × Text × ℕ)) (j : Job)
      → Holds done j
      → (j' : Job) × (append_all ps j ≡ some j') × Holds (done ++ map (λ p. (p.0, p.1)) ps) j'
  unfolding append_all
  append_all-Holds done [] j h = (j, refl, rw append-nil h)
  append_all-Holds done ((kind, text, now) ∷ ps) j h =
      let (j1, found, h1) = append_event-Holds done kind text now j h in
      let (j2, found2, h2) = append_all-Holds (done ++ (kind, text) ∷ []) ps j1 h1 in
      (j2, rw (found, append_all) found2, rw append_assoc at h2)

  -- A job whose log is empty, under a log file that never writes more than it is given, takes any
  -- list of events without a panic; all limits hold afterwards; and a watcher with a cursor gets
  -- exactly the events after its cursor, or after `truncated_before` where that is later.
  pub watcher_sees_rest :
      (j : Job) (ps : List (Text × Text × ℕ)) (cursor : ℕ)
      → Holds [] j
      → (j' : Job) × (append_all ps j ≡ some j')
        × IsBounded j'
        × (j'.next_sequence ≡ length ps)
        × (map payload (snapshot_after cursor j').0.events
            ≡ drop (max cursor j'.truncated_before) (map (λ p. (p.0, p.1)) ps))
  watcher_sees_rest j ps cursor h =
      let (j', found, h') = append_all-Holds [] ps j h in
      let (late, early) = snapshot-Holds (map (λ p. (p.0, p.1)) ps) j' cursor h' in
      let seen : map payload (snapshot_after cursor j').0.events
          ≡ drop (max cursor j'.truncated_before) (map (λ p. (p.0, p.1)) ps) =
        elim (dec_le j'.truncated_before cursor) [
          | yes le ↦ late le ∙ ap (λ n. drop n (map (λ p. (p.0, p.1)) ps)) (omega arith)
          | no gt ↦ early (omega arith) ∙ ap (λ n. drop n (map (λ p. (p.0, p.1)) ps)) (omega arith)
        ] in
      (j', found, h'.bounded, h'.total ∙ length-map _ ps, seen)
