-- ===== src/Hub/Notifications/Store.antt =====
-- The store's calls on notifications (internal/hub/store/store.go). The table is the list of its rows
-- in the order in which they were inserted; none is ever deleted. A call is one transaction.
use Prim.Native.Nat.{Ordering}
use Prim.Native.String.{compare}
use fast_spider.Prelude.{
  ℕ, ◌+◌, ◌*◌, Bool, true, false, not, ◌&&◌, ◌||◌, List, [], ◌∷◌, Option, none, some, map, String,
  if◌then◌else◌, ltb, leb, ◌==◌, str_eq, is_some, length, keep_if, take,
}
use fast_spider.Hub.Results.Rows.{
  Answer, ok, fail, not_found, conflict, resource_limit, expired, second, unix,
}
use fast_spider.Hub.Notifications.Rows.{
  pending, claimed, acked, is_pending, is_claimed, is_acked, Notification,
}

-- A column that may be NULL is compared with a text: NULL is not equal to it.
unfoldable pub has_text : Option String → String → Bool
has_text none s = false
has_text (some t) s = str_eq t s

-- `claimed_at <= cutoff`, with the lease added to the other side; NULL gives no row.
unfoldable pub lease_over : ℕ → ℕ → Option ℕ → Bool
lease_over now lease none = false
lease_over now lease (some t) = leb (t * second + lease) now

unfoldable pub is_for : String → String → Notification → Bool
is_for owner target n = str_eq n.owner_id owner && str_eq n.target_session_id target

-- The rows of a claim.
unfoldable pub is_of_claim : String → String → String → Notification → Bool
unfolding is_for has_text
is_of_claim owner target claim n = is_for owner target n && has_text n.claim_id claim

-- `ORDER BY created_at,notification_id`
unfoldable pub stands_before : Notification → Notification → Bool
stands_before a b =
    ltb a.created_at b.created_at
    || ((a.created_at == b.created_at)
        && elim (compare a.notification_id b.notification_id) [ Ordering.gt ↦ false | _ ↦ true ])

unfoldable pub insert_ordered : Notification → List Notification → List Notification
unfolding stands_before
insert_ordered n [] = n ∷ []
insert_ordered n (q ∷ rows) =
    let rest = insert_ordered n rows in if stands_before n q then n ∷ q ∷ rows else q ∷ rest

unfoldable pub ordered : List Notification → List Notification
unfolding insert_ordered
ordered [] = []
ordered (n ∷ rows) = insert_ordered n (ordered rows)

-- The first UPDATE of a claim: leases that are over are given back.
unfoldable pub release_row : String → String → ℕ → ℕ → Notification → Notification
unfolding is_for is_claimed lease_over
release_row owner target now lease n =
    if is_for owner target n && is_claimed n.state && lease_over now lease n.claimed_at
    then record n { state = pending; claim_id = none; claimed_at = none; updated_at = unix now }
    else n

unfoldable pub taken : String → ℕ → Notification → Notification
taken claim now n = record n {
  state = claimed;
  claim_id = some claim;
  claimed_at = some (unix now);
  updated_at = unix now;
}

unfoldable pub is_free : String → String → Notification → Bool
unfolding is_pending
is_free owner id n = str_eq n.notification_id id && str_eq n.owner_id owner && is_pending n.state

unfoldable pub claim_row : String → String → ℕ → String → Notification → Notification
unfolding is_free taken
claim_row owner claim now id n = if is_free owner id n then taken claim now n else n

-- The UPDATEs of the selected rows; each has to change one row.
unfoldable pub claim_each :
    String → String → ℕ → List Notification → List Notification → Option (List Notification)
unfolding claim_row is_free
claim_each owner claim now [] rows = some rows
claim_each owner claim now (n ∷ selected) rows =
    let rest =
      claim_each owner claim now selected
        (map (claim_row owner claim now n.notification_id) rows) in
    if length (keep_if (is_free owner n.notification_id) rows) == 1 then rest else none

unfoldable pub prepend : Notification → Option (List Notification) → Option (List Notification)
prepend n none = none
prepend n (some rows) = some (n ∷ rows)

module _ (byte_length : String → ℕ) where
  -- The loop that stops before the texts are too long; `none` is a first text that is too long.
  unfoldable pub cap_text : ℕ → ℕ → Bool → List Notification → Option (List Notification)
  unfolding prepend
  cap_text max_text total started [] = some []
  cap_text max_text total started (n ∷ rows) =
      let next = total + byte_length n.result_text in
      let rest = cap_text max_text next true rows in
      if started && ltb max_text next
      then some []
      else if ltb max_text next
      then none
      else prepend n rest

  -- A limit of 0 bytes stands for none.
  unfoldable pub select : ℕ → List Notification → Option (List Notification)
  unfolding cap_text
  select max_text rows = if ltb 0 max_text then cap_text max_text 0 false rows else some rows

unfoldable pub claim_done :
    List Notification
    → String
    → ℕ
    → List Notification
    → Option (List Notification)
    → List Notification × Answer (List Notification)
unfolding taken
claim_done rows claim now selected none = (rows, fail conflict)
claim_done rows claim now selected (some rows') = (rows', ok (map (taken claim now) selected))

-- The UPDATEs work on the rows after the release; an error rolls that back too.
unfoldable pub claim_selected :
    List Notification
    → List Notification
    → String
    → String
    → ℕ
    → Option (List Notification)
    → List Notification × Answer (List Notification)
unfolding claim_each claim_done
claim_selected rows released owner claim now none = (rows, fail resource_limit)
claim_selected rows released owner claim now (some selected) =
    claim_done rows claim now selected (claim_each owner claim now selected released)

unfoldable pub held_rows : String → String → String → List Notification → List Notification
unfolding is_of_claim is_claimed ordered
held_rows owner target claim rows =
    ordered (keep_if (λ n. is_of_claim owner target claim n && is_claimed n.state) rows)

unfoldable pub acked_rows : String → String → String → List Notification → List Notification
unfolding is_of_claim is_acked
acked_rows owner target claim rows =
    keep_if (λ n. is_of_claim owner target claim n && is_acked n.state) rows

unfoldable pub free_rows : String → String → List Notification → List Notification
unfolding is_for is_pending ordered
free_rows owner target rows =
    ordered (keep_if (λ n. is_for owner target n && is_pending n.state) rows)

module _ (byte_length : String → ℕ) where
  unfoldable pub claim_or_replay :
      List Notification
      → List Notification
      → String
      → String
      → String
      → ℕ
      → ℕ
      → ℕ
      → List Notification
      → List Notification
      → List Notification × Answer (List Notification)
  unfolding claim_selected select free_rows
  claim_or_replay rows released owner target claim limit max_text now (n ∷ held) old =
      (released, ok (n ∷ held))
  claim_or_replay rows released owner target claim limit max_text now [] (n ∷ old) =
      (released, ok [])
  claim_or_replay rows released owner target claim limit max_text now [] [] =
      claim_selected rows released owner claim now
        (select byte_length max_text (take limit (free_rows owner target released)))

  -- `ClaimCloudCompletionNotifications`
  unfoldable pub claim_notifications :
      List Notification
      → String
      → String
      → String
      → ℕ
      → ℕ
      → ℕ
      → ℕ
      → List Notification × Answer (List Notification)
  unfolding claim_or_replay release_row held_rows acked_rows
  claim_notifications rows owner target claim limit max_text now lease =
      let released = map (release_row owner target now lease) rows in
      claim_or_replay rows released owner target claim limit max_text now
        (held_rows owner target claim released) (acked_rows owner target claim released)

-- `claimed_at > cutoff`
unfoldable pub is_held : String → String → String → ℕ → ℕ → Notification → Bool
unfolding is_of_claim is_claimed lease_over
is_held owner target claim now lease n =
    is_of_claim owner target claim n
    && is_claimed n.state
    && is_some n.claimed_at
    && not (lease_over now lease n.claimed_at)

unfoldable pub acknowledged : ℕ → Notification → Notification
acknowledged now n = record n { state = acked; acked_at = some (unix now); updated_at = unix now }

unfoldable pub ack_row : String → String → String → ℕ → ℕ → Notification → Notification
unfolding is_held acknowledged
ack_row owner target claim now lease n =
    if is_held owner target claim now lease n then acknowledged now n else n

unfoldable pub nothing_acked : List Notification → List Notification → Answer ℕ
nothing_acked (n ∷ old) over = ok 0
nothing_acked [] (n ∷ over) = fail expired
nothing_acked [] [] = fail not_found

-- `AcknowledgeCloudCompletionClaim`; the two SELECTs of sums look whether there is such a row.
unfoldable pub acknowledge_claim :
    List Notification → String → String → String → ℕ → ℕ → List Notification × Answer ℕ
unfolding ack_row is_held nothing_acked acked_rows is_of_claim is_claimed lease_over
acknowledge_claim rows owner target claim now lease =
    let held = length (keep_if (is_held owner target claim now lease) rows) in
    if ltb 0 held then (map (ack_row owner target claim now lease) rows, ok held) else (
      map (ack_row owner target claim now lease) rows,
      nothing_acked (acked_rows owner target claim rows) (
          keep_if
            (λ n.
              is_of_claim owner target claim n
              && is_claimed n.state
              && lease_over now lease n.claimed_at)
            rows),
    )

unfoldable pub not_all : Option Bool → Option Bool
not_all none = none
not_all (some all_acked) = some false

unfoldable pub view_checked : List Notification → Option Bool → Answer (List Notification × Bool)
view_checked rows none = fail expired
view_checked rows (some all_acked) = ok (rows, all_acked)

unfoldable pub check_claim : ℕ → ℕ → List Notification → Option Bool
unfolding is_acked is_claimed lease_over not_all
check_claim now lease [] = some true
check_claim now lease (n ∷ rows) =
    let rest = check_claim now lease rows in
    if is_acked n.state
    then rest
    else if not (is_claimed n.state)
        || not (is_some n.claimed_at)
        || lease_over now lease n.claimed_at
    then none
    else not_all rest

unfoldable pub claim_view : ℕ → ℕ → List Notification → Answer (List Notification × Bool)
unfolding check_claim view_checked
claim_view now lease [] = fail not_found
claim_view now lease (n ∷ rows) = view_checked (n ∷ rows) (check_claim now lease (n ∷ rows))

-- `GetCloudCompletionClaim`
unfoldable pub get_claim :
    List Notification → String → String → String → ℕ → ℕ → Answer (List Notification × Bool)
unfolding claim_view ordered is_of_claim
get_claim rows owner target claim now lease =
    claim_view now lease (ordered (keep_if (is_of_claim owner target claim) rows))
