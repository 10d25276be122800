-- ===== src/Hub/Notifications/Claims.antt =====
-- What a new claim gets (internal/hub/store/store.go, ClaimCloudCompletionNotifications).
use fast_spider.Prelude.{
  ℕ, ◌+◌, ◌≤◌, ◌<◌, ◌≡◌, refl, ap, inl, inr, Bool, true, false, List, [], ◌∷◌, Option, none, some,
  map, String, arith, Bool-cases, Option-cases, ltb, length, length-map, take, length-take, All,
}
use fast_spider.Hub.Results.Rows.{ok, unix}
use fast_spider.Hub.Notifications.Rows.{claimed, Notification}
use fast_spider.Hub.Notifications.Store.{
  release_row, taken, claim_each, cap_text, prepend, select, claim_done, claim_selected, held_rows,
  acked_rows, free_rows, claim_or_replay, claim_notifications,
}

module _ (byte_length : String → ℕ) where
  unfoldable pub text_bytes : List Notification → ℕ
  text_bytes [] = 0
  text_bytes (n ∷ rows) = byte_length n.result_text + text_bytes rows

  prepend-cases :
      (n : Notification) (o : Option (List Notification)) (rows : List Notification)
      → prepend n o ≡ some rows
      → (rest : List Notification) × (o ≡ some rest) × (rows ≡ n ∷ rest)
  unfolding prepend
  prepend-cases n none rows e = absurd (ground arith)
  prepend-cases n (some rest) rows e = (rest, refl, ground arith)

  cap_text-bytes :
      (max_text total : ℕ) (started : Bool) (rows selected : List Notification)
      → total ≤ max_text
      → cap_text byte_length max_text total started rows ≡ some selected
      → (total + text_bytes selected ≤ max_text) × (length selected ≤ length rows)
  unfolding cap_text text_bytes
  cap_text-bytes max_text total started [] selected h e = ground arith
  cap_text-bytes max_text total started (n ∷ rows) selected h e =
      let next = total + byte_length n.result_text in
      elim (Bool-cases (ltb max_text next)) [
        | inl long ↦ elim (Bool-cases started) [
          | inl s ↦ ground arith
          | inr s ↦ absurd (ground arith)
        ]
        | inr fits ↦
            let (rest, found, whole) =
              prepend-cases n (cap_text byte_length max_text next true rows) selected
                (ground arith) in
            let (bytes, few) = cap_text-bytes max_text next true rows rest (ground arith) found in
            rw whole (ground (arith, bytes, few))
      ]

  select-bytes :
      (max_text : ℕ) (rows selected : List Notification)
      → 0 < max_text
      → select byte_length max_text rows ≡ some selected
      → (text_bytes selected ≤ max_text) × (length selected ≤ length rows)
  unfolding select
  select-bytes max_text rows selected h e =
      let (bytes, few) =
        cap_text-bytes max_text 0 false rows selected (omega arith) (ground arith) in
      (omega (arith, bytes), few)

  text_bytes-taken :
      (claim : String) (now : ℕ) (rows : List Notification)
      → text_bytes (map (taken claim now) rows) ≡ text_bytes rows
  unfolding text_bytes taken
  text_bytes-taken claim now [] = refl
  text_bytes-taken claim now (n ∷ rows) =
      ap (λ (x : ℕ). byte_length n.result_text + x) (text_bytes-taken claim now rows)

-- The rows are claimed now, by this claim.
abbrev pub AreTaken : String → ℕ → List Notification → Type 0
AreTaken claim now =
    All (λ n. (n.state ≡ claimed) × (n.claim_id ≡ some claim) × (n.claimed_at ≡ some (unix now)))

taken-AreTaken :
    (claim : String) (now : ℕ) (rows : List Notification)
    → AreTaken claim now (map (taken claim now) rows)
unfolding taken
taken-AreTaken claim now [] = tt
taken-AreTaken claim now (n ∷ rows) = ((refl, refl, refl), taken-AreTaken claim now rows)

claim_selected-ok :
    (rows released : List Notification) (owner claim : String) (now : ℕ)
    (o : Option (List Notification)) (answer : List Notification)
    → (claim_selected rows released owner claim now o).1 ≡ ok answer
    → (selected : List Notification) × (o ≡ some selected)
      × (answer ≡ map (taken claim now) selected)
unfolding claim_selected claim_done
claim_selected-ok rows released owner claim now none answer e = absurd (ground arith)
claim_selected-ok rows released owner claim now (some selected) answer e =
    elim (Option-cases (claim_each owner claim now selected released)) [
      | inl g ↦ absurd (ground (arith, g))
      | inr (rows', g) ↦ (selected, refl, ground (arith, g))
    ]

module _ (byte_length : String → ℕ) where
  -- A claim whose identifier holds no row and has acknowledged none, with a limit of the text, answers
  -- at most as many rows as its limit, their texts together are within the limit of the text, and each
  -- is claimed by it at the time of the call.
  pub new_claim_bounded :
      (rows : List Notification) (owner target claim : String) (limit max_text now lease : ℕ)
      (answer : List Notification)
      → held_rows owner target claim (map (release_row owner target now lease) rows) ≡ []
      → acked_rows owner target claim (map (release_row owner target now lease) rows) ≡ []
      → 0 < max_text
      → (claim_notifications byte_length rows owner target claim limit max_text now lease).1
        ≡ ok answer
      → (length answer ≤ limit)
        × (text_bytes byte_length answer ≤ max_text)
        × AreTaken claim now answer
  unfolding claim_notifications claim_or_replay
  new_claim_bounded rows owner target claim limit max_text now lease answer no_held no_acked h e =
      let released = map (release_row owner target now lease) rows in
      let (selected, found, whole) =
        claim_selected-ok rows released owner claim now
          (select byte_length max_text (take limit (free_rows owner target released))) answer
          (ground (arith, e, no_held, no_acked)) in
      let (bytes, few) =
        select-bytes byte_length max_text (take limit (free_rows owner target released)) selected h
          found in
      rw whole (
        omega (
          arith,
          few,
          length-map (taken claim now) selected,
          length-take limit (free_rows owner target released),
        ),
        omega (arith, bytes, text_bytes-taken byte_length claim now selected),
        taken-AreTaken claim now selected,
      )
