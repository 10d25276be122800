-- ===== src/Hub/Notifications/History.antt =====
-- Notifications over every order of calls (internal/hub/store/store.go): what is acknowledged stays so,
-- and what is claimed stays with its claim until the lease is over.
use fast_spider.Prelude.{
  ℕ, zero, suc, ◌≡◌, refl, ap, ◌∙◌, inl, inr, Bool, true, false, not, ◌&&◌, List, [], ◌∷◌, Option,
  none, some, map, String, arith, if-cases, Option-cases, ltb, length, keep_if, take, get_elem?,
  get_elem?-append_left, get_elem?-lt, All,
}
use fast_spider.Hub.Results.Rows.{Answer}
use fast_spider.Hub.Notifications.Rows.{
  State, pending, claimed, acked, is_pending, is_claimed, is_acked, Notification,
}
use fast_spider.Hub.Notifications.Store.{
  lease_over, is_of_claim, release_row, is_free, claim_row, claim_each, select, claim_done,
  claim_selected, held_rows, acked_rows, free_rows, claim_or_replay, claim_notifications, is_held,
  ack_row, acknowledge_claim,
}
use fast_spider.Hub.Notifications.Enqueue.{
  Texts, with_callback_type, callback_is_valid, find_task, insert_notification, has_id,
  enqueue_notification, is_upgradable, claimed_until, upgrade_row, upgrade_notification, fresh_row,
}

pub data Call : Type 0 where
  enqueues : Notification → Call
  upgrades : Notification → ℕ → Call
  claims : String → String → String → ℕ → ℕ → ℕ → Call
  acknowledges : String → String → String → ℕ → Call

-- The lease is the same in all calls, as the service passes a constant.
module _ (t : Texts) (lease : ℕ) where
  unfoldable pub apply : List Notification → Call → List Notification
  apply rows (enqueues n) = (enqueue_notification t rows n).0
  apply rows (upgrades n cutoff) = (upgrade_notification t rows n cutoff).0
  apply rows (claims owner target claim limit max_text now) =
      (claim_notifications t.byte_length rows owner target claim limit max_text now lease).0
  apply rows (acknowledges owner target claim now) =
      (acknowledge_claim rows owner target claim now lease).0

  unfoldable pub replay : List Notification → List Call → List Notification
  unfolding apply
  replay rows [] = rows
  replay rows (call ∷ calls) = replay (apply rows call) calls

-- A row keeps its place: a call changes rows where they stand, or adds one at the end.
pub get_elem?-map :
    (f : Notification → Notification) (rows : List Notification) (i : ℕ) (n : Notification)
    → get_elem? rows i ≡ some n
    → f n ≡ n
    → get_elem? (map f rows) i ≡ some n
get_elem?-map f [] i n e h = e
get_elem?-map f (q ∷ rows) zero n e h = let p : q ≡ n = ground arith in ap some (ap f p ∙ h)
get_elem?-map f (q ∷ rows) (suc i) n e h = get_elem?-map f rows i n e h

claim_row-keeps :
    (owner claim : String) (now : ℕ) (id : String) (n : Notification)
    → is_pending n.state ≡ false
    → claim_row owner claim now id n ≡ n
unfolding claim_row is_free
claim_row-keeps owner claim now id n h = ground arith

-- What a row needs of each UPDATE to stay as it is through the call of a claim.
claim_each-keeps :
    (owner claim : String) (now : ℕ) (selected rows rows' : List Notification) (i : ℕ)
    (n : Notification)
    → is_pending n.state ≡ false
    → get_elem? rows i ≡ some n
    → claim_each owner claim now selected rows ≡ some rows'
    → get_elem? rows' i ≡ some n
unfolding claim_each
claim_each-keeps owner claim now [] rows rows' i n h e f = ground arith
claim_each-keeps owner claim now (q ∷ selected) rows rows' i n h e f =
    claim_each-keeps owner claim now selected
      (map (claim_row owner claim now q.notification_id) rows) rows' i n h
      (get_elem?-map (claim_row owner claim now q.notification_id) rows i n e
        (claim_row-keeps owner claim now q.notification_id n h))
      (ground arith)

claim_selected-keeps :
    (rows released : List Notification) (owner claim : String) (now : ℕ)
    (o : Option (List Notification)) (i : ℕ) (n : Notification)
    → is_pending n.state ≡ false
    → get_elem? rows i ≡ some n
    → get_elem? released i ≡ some n
    → get_elem? (claim_selected rows released owner claim now o).0 i ≡ some n
unfolding claim_selected claim_done
claim_selected-keeps rows released owner claim now none i n h e f = e
claim_selected-keeps rows released owner claim now (some selected) i n h e f =
    elim (Option-cases (claim_each owner claim now selected released)) [
      | inl g ↦ rw g e
      | inr (rows', g) ↦ rw g (claim_each-keeps owner claim now selected released rows' i n h f g)
    ]

claim_or_replay-keeps :
    (byte_length : String → ℕ) (rows released : List Notification) (owner target claim : String)
    (limit max_text now : ℕ) (held old : List Notification) (i : ℕ) (n : Notification)
    → is_pending n.state ≡ false
    → get_elem? rows i ≡ some n
    → get_elem? released i ≡ some n
    → get_elem?
        (claim_or_replay byte_length rows released owner target claim limit max_text now held old).0
        i
      ≡ some n
unfolding claim_or_replay
claim_or_replay-keeps byte_length rows released owner target claim limit max_text now (q ∷ held) old
      i n h e f =
    f
claim_or_replay-keeps byte_length rows released owner target claim limit max_text now [] (q ∷ old) i
      n h e f =
    f
claim_or_replay-keeps byte_length rows released owner target claim limit max_text now [] [] i n h e
      f =
    claim_selected-keeps rows released owner claim now
      (select byte_length max_text (take limit (free_rows owner target released))) i n h e f

pub claim_notifications-keeps :
    (byte_length : String → ℕ) (rows : List Notification) (owner target claim : String)
    (limit max_text now lease i : ℕ) (n : Notification)
    → is_pending n.state ≡ false
    → get_elem? rows i ≡ some n
    → release_row owner target now lease n ≡ n
    → get_elem?
        (claim_notifications byte_length rows owner target claim limit max_text now lease).0
        i
      ≡ some n
unfolding claim_notifications
claim_notifications-keeps byte_length rows owner target claim limit max_text now lease i n h e g =
    let released = map (release_row owner target now lease) rows in
    claim_or_replay-keeps byte_length rows released owner target claim limit max_text now
      (held_rows owner target claim released) (acked_rows owner target claim released) i n h e
      (get_elem?-map (release_row owner target now lease) rows i n e g)

pub acknowledge_claim-keeps :
    (rows : List Notification) (owner target claim : String) (now lease i : ℕ) (n : Notification)
    → get_elem? rows i ≡ some n
    → ack_row owner target claim now lease n ≡ n
    → get_elem? (acknowledge_claim rows owner target claim now lease).0 i ≡ some n
unfolding acknowledge_claim
acknowledge_claim-keeps rows owner target claim now lease i n e g =
    let after = get_elem?-map (ack_row owner target claim now lease) rows i n e g in
    if-cases (λ (x : List Notification × Answer ℕ). get_elem? x.0 i ≡ some n)
      (ltb 0 (length (keep_if (is_held owner target claim now lease) rows))) (λ b. after)
      (λ b. after)

insert_notification-keeps :
    (q : Notification) (rows : List Notification) (o : Option Notification) (i : ℕ)
    (n : Notification)
    → get_elem? rows i ≡ some n
    → get_elem? (insert_notification q rows o).0 i ≡ some n
unfolding insert_notification
insert_notification-keeps q rows (some r) i n e = e
insert_notification-keeps q rows none i n e =
    if-cases (λ (x : List Notification × Answer (Notification × Bool)). get_elem? x.0 i ≡ some n)
      (has_id q.notification_id rows) (λ b. e)
      (λ b. get_elem?-append_left rows (fresh_row q ∷ []) i (get_elem?-lt rows i e) ∙ e)

pub enqueue_notification-keeps :
    (t : Texts) (rows : List Notification) (q : Notification) (i : ℕ) (n : Notification)
    → get_elem? rows i ≡ some n
    → get_elem? (enqueue_notification t rows q).0 i ≡ some n
unfolding enqueue_notification
enqueue_notification-keeps t rows q i n e =
    if-cases (λ (x : List Notification × Answer (Notification × Bool)). get_elem? x.0 i ≡ some n)
      (callback_is_valid t (with_callback_type q))
      (λ b.
        insert_notification-keeps (with_callback_type q) rows
          (find_task (with_callback_type q) rows) i n e)
      (λ b. e)

pub upgrade_notification-keeps :
    (t : Texts) (rows : List Notification) (q : Notification) (cutoff i : ℕ) (n : Notification)
    → get_elem? rows i ≡ some n
    → upgrade_row (with_callback_type q) cutoff n ≡ n
    → get_elem? (upgrade_notification t rows q cutoff).0 i ≡ some n
unfolding upgrade_notification
upgrade_notification-keeps t rows q cutoff i n e g =
    if-cases (λ (x : List Notification × Answer (Notification × Bool)). get_elem? x.0 i ≡ some n)
      (callback_is_valid t (with_callback_type q))
      (λ b. get_elem?-map (upgrade_row (with_callback_type q) cutoff) rows i n e g) (λ b. e)

acked-cases : (s : State) → is_acked s ≡ true → (is_pending s ≡ false) × (is_claimed s ≡ false)
unfolding is_pending is_claimed is_acked
acked-cases pending h = absurd (ground arith)
acked-cases claimed h = absurd (ground arith)
acked-cases acked h = (refl, refl)

claimed-cases : (s : State) → is_claimed s ≡ true → is_pending s ≡ false
unfolding is_pending is_claimed
claimed-cases pending h = absurd (ground arith)
claimed-cases claimed h = refl
claimed-cases acked h = absurd (ground arith)

-- The single UPDATEs and what makes them pass over a row.
release_row-keeps :
    (owner target : String) (now lease : ℕ) (n : Notification)
    → is_claimed n.state && lease_over now lease n.claimed_at ≡ false
    → release_row owner target now lease n ≡ n
unfolding release_row
release_row-keeps owner target now lease n h = ground arith

ack_row-keeps :
    (owner target claim : String) (now lease : ℕ) (n : Notification)
    → is_of_claim owner target claim n && is_claimed n.state ≡ false
    → ack_row owner target claim now lease n ≡ n
unfolding ack_row is_held
ack_row-keeps owner target claim now lease n h = ground arith

upgrade_row-keeps :
    (q : Notification) (cutoff : ℕ) (n : Notification)
    → is_pending n.state ≡ false
    → is_claimed n.state && claimed_until cutoff n.claimed_at ≡ false
    → upgrade_row q cutoff n ≡ n
unfolding upgrade_row is_upgradable
upgrade_row-keeps q cutoff n g h = ground arith

-- A call that cannot touch a claimed row: it comes before the lease is over, and it is not the
-- acknowledgement of the row's own claim.
unfoldable pub spares : ℕ → Notification → Call → Bool
spares lease n (enqueues q) = true
spares lease n (upgrades q cutoff) = not (claimed_until cutoff n.claimed_at)
spares lease n (claims owner target claim limit max_text now) =
    not (lease_over now lease n.claimed_at)
spares lease n (acknowledges owner target claim now) = not (is_of_claim owner target claim n)

module _ (t : Texts) (lease : ℕ) where
  apply-acked :
      (rows : List Notification) (call : Call) (i : ℕ) (n : Notification)
      → get_elem? rows i ≡ some n
      → is_acked n.state ≡ true
      → get_elem? (apply t lease rows call) i ≡ some n
  unfolding apply
  apply-acked rows (enqueues q) i n e h = enqueue_notification-keeps t rows q i n e
  apply-acked rows (upgrades q cutoff) i n e h =
      let (p, c) = acked-cases n.state h in
      upgrade_notification-keeps t rows q cutoff i n e
        (upgrade_row-keeps (with_callback_type q) cutoff n p (rw c refl))
  apply-acked rows (claims owner target claim limit max_text now) i n e h =
      let (p, c) = acked-cases n.state h in
      claim_notifications-keeps t.byte_length rows owner target claim limit max_text now lease i n p
        e (release_row-keeps owner target now lease n (rw c refl))
  apply-acked rows (acknowledges owner target claim now) i n e h =
      let (p, c) = acked-cases n.state h in
      acknowledge_claim-keeps rows owner target claim now lease i n e
        (ack_row-keeps owner target claim now lease n (ground arith))

  -- Over every further order of calls an acknowledged notification stays exactly as it is.
  pub acked_for_good :
      (rows : List Notification) (calls : List Call) (i : ℕ) (n : Notification)
      → get_elem? rows i ≡ some n
      → is_acked n.state ≡ true
      → get_elem? (replay t lease rows calls) i ≡ some n
  unfolding replay
  acked_for_good rows [] i n e h = e
  acked_for_good rows (call ∷ calls) i n e h =
      acked_for_good (apply t lease rows call) calls i n (apply-acked rows call i n e h) h

  apply-claimed :
      (rows : List Notification) (call : Call) (i : ℕ) (n : Notification)
      → get_elem? rows i ≡ some n
      → is_claimed n.state ≡ true
      → spares lease n call ≡ true
      → get_elem? (apply t lease rows call) i ≡ some n
  unfolding apply spares
  apply-claimed rows (enqueues q) i n e h f = enqueue_notification-keeps t rows q i n e
  apply-claimed rows (upgrades q cutoff) i n e h f =
      upgrade_notification-keeps t rows q cutoff i n e
        (upgrade_row-keeps (with_callback_type q) cutoff n (claimed-cases n.state h) (ground arith))
  apply-claimed rows (claims owner target claim limit max_text now) i n e h f =
      claim_notifications-keeps t.byte_length rows owner target claim limit max_text now lease i n
        (claimed-cases n.state h) e (release_row-keeps owner target now lease n (ground arith))
  apply-claimed rows (acknowledges owner target claim now) i n e h f =
      acknowledge_claim-keeps rows owner target claim now lease i n e
        (ack_row-keeps owner target claim now lease n (ground arith))

  -- Over every order of calls that come before its lease is over and are not the acknowledgement of its
  -- own claim, a claimed notification stays with its claim exactly as it is: other claims neither get
  -- it nor change it, and neither does an upgrade whose cutoff is earlier than the claim.
  pub lease_is_exclusive :
      (rows : List Notification) (calls : List Call) (i : ℕ) (n : Notification)
      → get_elem? rows i ≡ some n
      → is_claimed n.state ≡ true
      → All (λ call. spares lease n call ≡ true) calls
      → get_elem? (replay t lease rows calls) i ≡ some n
  unfolding replay
  lease_is_exclusive rows [] i n e h f = e
  lease_is_exclusive rows (call ∷ calls) i n e h f =
      lease_is_exclusive (apply t lease rows call) calls i n (apply-claimed rows call i n e h f.0) h
        f.1
