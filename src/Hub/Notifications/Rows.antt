-- ===== src/Hub/Notifications/Rows.antt =====
-- The rows of the table of notifications (internal/hub/store/store.go). A column of times holds
-- seconds; a `now` and a lease are nanoseconds.
use fast_spider.Prelude.{ℕ, Bool, true, false, Option, String}

pub data State : Type 0 where
  pending claimed acked : State

unfoldable pub is_pending : State → Bool
is_pending pending = true
is_pending claimed = false
is_pending acked = false

unfoldable pub is_claimed : State → Bool
is_claimed claimed = true
is_claimed pending = false
is_claimed acked = false

unfoldable pub is_acked : State → Bool
is_acked acked = true
is_acked pending = false
is_acked claimed = false

pub record Notification : Type 0 where
  pub notification_id : String
  pub owner_id : String
  pub collaboration_id : String
  pub task_id : String
  pub generation : ℕ
  pub notification_kind : String
  pub outcome : String
  pub callback_type : String
  pub result_text : String
  pub source_session_id : String
  pub target_session_id : String
  pub deliverable_path : String
  pub state : State
  pub claim_id : Option String
  pub claimed_at : Option ℕ
  pub acked_at : Option ℕ
  pub created_at : ℕ
  pub updated_at : ℕ
