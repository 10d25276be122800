-- ===== src/Hub/Notifications/Enqueue.antt =====
-- Storing a notification and replacing one that is not yet acknowledged (internal/hub/store/store.go).
-- What the packages strings and unicode/utf8 say of a text is an argument.
use fast_spider.Prelude.{
  ℕ, Bool, true, false, not, ◌&&◌, ◌||◌, List, [], ◌∷◌, ◌++◌, Option, none, some, map, String,
  if◌then◌else◌, ltb, leb, ◌==◌, str_eq, one_of, length, keep_if,
}
use fast_spider.Hub.Results.Rows.{Answer, ok, fail, not_found, conflict, database}
use fast_spider.Hub.Notifications.Rows.{pending, is_pending, is_claimed, Notification}

pub record Texts : Type 0 where
  pub byte_length : String → ℕ
  pub rune_count : String → ℕ
  pub valid_utf8 : String → Bool
  pub has_zero_byte : String → Bool
  pub is_blank : String → Bool

-- 8 << 10
abbrev pub callback_text_max_bytes : ℕ
callback_text_max_bytes = 8192

abbrev pub callback_text_max_runes : ℕ
callback_text_max_runes = 2000

unfoldable pub with_callback_type : Notification → Notification
with_callback_type n =
    if str_eq n.callback_type ""
    then record n {
      callback_type = if str_eq n.deliverable_path "" then "status" else "local_file";
    }
    else n

-- The `switch` on the type of the callback.
unfoldable pub callback_is_valid : Texts → Notification → Bool
callback_is_valid t n =
    if str_eq n.callback_type "local_file"
    then not (str_eq n.deliverable_path "" || not (str_eq n.result_text ""))
    else if str_eq n.callback_type "text"
    then not (
        not (str_eq n.deliverable_path "")
        || not (t.valid_utf8 n.result_text)
        || t.has_zero_byte n.result_text
        || ltb callback_text_max_bytes (t.byte_length n.result_text)
        || ltb callback_text_max_runes (t.rune_count n.result_text)
        || (str_eq n.outcome "completed" && t.is_blank n.result_text))
    else if str_eq n.callback_type "status"
    then str_eq n.deliverable_path "" && str_eq n.result_text ""
    else false

unfoldable pub same_task : Notification → Notification → Bool
same_task n q =
    str_eq q.owner_id n.owner_id
    && str_eq q.collaboration_id n.collaboration_id
    && str_eq q.task_id n.task_id
    && (q.generation == n.generation)
    && str_eq q.notification_kind n.notification_kind

unfoldable pub find_task : Notification → List Notification → Option Notification
unfolding same_task
find_task n [] = none
find_task n (q ∷ rows) = if same_task n q then some q else find_task n rows

unfoldable pub has_id : String → List Notification → Bool
has_id id [] = false
has_id id (q ∷ rows) = str_eq q.notification_id id || has_id id rows

-- Whether the stored row says what the caller wanted to store.
unfoldable pub same_content : Notification → Notification → Bool
same_content n q =
    str_eq q.notification_id n.notification_id
    && str_eq q.callback_type n.callback_type
    && str_eq q.result_text n.result_text
    && str_eq q.source_session_id n.source_session_id
    && str_eq q.target_session_id n.target_session_id
    && str_eq q.deliverable_path n.deliverable_path

unfoldable pub stored_as : Notification → Bool → Option Notification → Answer (Notification × Bool)
unfolding same_content
stored_as n replayed none = fail not_found
stored_as n replayed (some q) =
    if same_content n q && str_eq q.outcome n.outcome then ok (q, replayed) else fail conflict

-- The row that the INSERT writes.
unfoldable pub fresh_row : Notification → Notification
fresh_row n = record n { state = pending; claim_id = none; claimed_at = none; acked_at = none }

-- `ON CONFLICT(…) DO NOTHING` is about the task's key; a used identifier is an error.
unfoldable pub insert_notification :
    Notification
    → List Notification
    → Option Notification
    → List Notification × Answer (Notification × Bool)
unfolding stored_as has_id fresh_row
insert_notification n rows (some q) = (rows, stored_as n true (some q))
insert_notification n rows none =
    if has_id n.notification_id rows
    then (rows, fail database)
    else (rows ++ fresh_row n ∷ [], stored_as n false (some (fresh_row n)))

-- `EnqueueCloudCompletionNotification`
unfoldable pub enqueue_notification :
    Texts → List Notification → Notification → List Notification × Answer (Notification × Bool)
unfolding insert_notification callback_is_valid with_callback_type find_task
enqueue_notification t rows raw =
    let n = with_callback_type raw in
    if callback_is_valid t n
    then insert_notification n rows (find_task n rows)
    else (rows, fail conflict)

-- `claimed_at <= cutoff`
unfoldable pub claimed_until : ℕ → Option ℕ → Bool
claimed_until cutoff none = false
claimed_until cutoff (some t) = leb t cutoff

-- The WHERE of the upgrade.
unfoldable pub is_upgradable : Notification → ℕ → Notification → Bool
unfolding same_task is_pending is_claimed claimed_until
is_upgradable n cutoff q =
    same_task n q
    && (str_eq q.notification_id n.notification_id
        && (str_eq q.callback_type n.callback_type
            && (str_eq q.source_session_id n.source_session_id
                && (str_eq q.target_session_id n.target_session_id
                    && (str_eq q.deliverable_path n.deliverable_path
                        && (one_of q.outcome ("failed" ∷ "blocked" ∷ [])
                            && (is_pending q.state
                                || (is_claimed q.state && claimed_until cutoff q.claimed_at))))))))

unfoldable pub upgraded : Notification → Notification → Notification
upgraded n q = record q {
  outcome = "completed";
  result_text = n.result_text;
  state = pending;
  claim_id = none;
  claimed_at = none;
  updated_at = n.updated_at;
}

unfoldable pub upgrade_row : Notification → ℕ → Notification → Notification
unfolding is_upgradable upgraded
upgrade_row n cutoff q = if is_upgradable n cutoff q then upgraded n q else q

unfoldable pub upgraded_as : Notification → ℕ → Option Notification → Answer (Notification × Bool)
unfolding same_content
upgraded_as n affected none = fail not_found
upgraded_as n affected (some q) =
    if (affected == 1) && str_eq q.outcome "completed" && same_content n q
    then ok (q, false)
    else fail conflict

-- `UpgradeCloudCompletionNotification`, with the cutoff in seconds.
unfoldable pub upgrade_notification :
    Texts → List Notification → Notification → ℕ → List Notification × Answer (Notification × Bool)
unfolding upgrade_row upgraded_as is_upgradable callback_is_valid with_callback_type find_task
upgrade_notification t rows raw cutoff =
    let n = with_callback_type raw in
    if callback_is_valid t n
    then (
      map (upgrade_row n cutoff) rows,
      upgraded_as n (length (keep_if (is_upgradable n cutoff) rows))
          (find_task n (map (upgrade_row n cutoff) rows)),
    )
    else (rows, fail conflict)
