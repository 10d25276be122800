-- ===== src/Hub/Results/Rows.antt =====
-- The rows of the result pool's tables (internal/hub/store/store.go). A table with a text as its
-- primary key is a dictionary. A status is one of those that the table's CHECK lists. A column of
-- times holds seconds, a `now` nanoseconds.
use Prim.Native.Nat.{◌/◌}
use fast_spider.Prelude.{ℕ, Bool, true, false, List, Option, String, Map, str_eq}

-- What a call of the store or of the service answers. `database` is any error of the database itself,
-- such as a violated constraint.
pub data StoreError : Type 0 where
  not_found unauthorized expired conflict resource_limit database : StoreError

pub data Answer (A : Type 0) : Type 0 where
  ok : A → Answer A
  fail : StoreError → Answer A

-- "open" is `opened`.
pub data Status : Type 0 where
  opened ready aborted failed : Status

unfoldable pub is_open : Status → Bool
is_open opened = true
is_open ready = false
is_open aborted = false
is_open failed = false

unfoldable pub is_ready : Status → Bool
is_ready ready = true
is_ready opened = false
is_ready aborted = false
is_ready failed = false

pub record ResultRecord : Type 0 where
  pub result_id : String
  pub owner_id : String
  pub machine_id : String
  pub idempotency_key : String
  pub request_hash : String
  pub status : Status
  pub manifest_json : String
  pub revision : ℕ
  pub error_code : String
  pub error_message : String
  pub created_at : ℕ
  pub committed_at : Option ℕ
  pub expires_at : ℕ

pub record PageRow : Type 0 where
  pub result_id : String
  pub page_no : ℕ
  pub owner_id : String
  pub artifact_id : String
  pub created_at : ℕ

pub record ArtifactRow : Type 0 where
  pub owner_id : String
  pub machine_id : String
  pub size_bytes : ℕ
  pub status : String
  pub storage_key : String
  pub expires_at : ℕ

pub record MachineRow : Type 0 where
  pub owner_id : String
  pub status : String

pub record Db : Type 0 where
  pub results : Map ResultRecord
  pub pages : List PageRow
  pub artifacts : Map ArtifactRow
  pub machines : Map MachineRow

abbrev pub second : ℕ
second = 1000000000

-- `now.Unix()`
abbrev pub unix : ℕ → ℕ
unix now = now / second

-- A page is of this result.
abbrev pub is_page_of : String → PageRow → Bool
is_page_of id p = str_eq p.result_id id
