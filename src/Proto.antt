-- ===== src/Proto.antt =====
-- The messages of the contract (proto/yadgar/common/v1 and proto/yadgar/task/v1) as prost gives
-- them to the handlers: an enum field is an open `i32`, a message field is optional, and a field
-- that was not sent holds its zero value. A `map` field is the list of its entries in the order
-- in which the hash map iterates.
use task_db.Prelude.{ℕ, zero, suc, ℤ, pos, negsuc, Text, Bool, Option, none, some, List, []}

-- `enum SettingValue`
pub data SettingValue : Type 0 where
  setting_unspecified off on : SettingValue

-- `SettingValue::try_from`
abbrev pub setting_value_of : ℤ → Option SettingValue
setting_value_of (pos zero) = some setting_unspecified
setting_value_of (pos (suc zero)) = some off
setting_value_of (pos (suc (suc zero))) = some on
setting_value_of (pos (suc (suc (suc n)))) = none
setting_value_of (negsuc n) = none

pub record InheritedSetting : Type 0 where
  pub org_value : ℤ
  pub org_locked : Bool
  pub team_override : List (Text × ℤ)

pub record Scope : Type 0 where
  pub user_id : Text
  pub project_id : Text
  pub team_ids : List Text
  pub instance_id : Text
  pub request_id : Text
  pub owner_reads_own_record : Option InheritedSetting

pub record Timestamp : Type 0 where
  pub seconds : ℤ
  pub nanos : ℤ

pub record Meta : Type 0 where
  pub id : Text
  pub version : ℕ
  pub project_id : Text
  pub owner_user_id : Text
  pub team_id : Text
  pub visibility : ℤ
  pub created_by : Text
  pub updated_by : Text
  pub created_at : Option Timestamp
  pub updated_at : Option Timestamp
  pub deleted_at : Option Timestamp
  pub derived_from : List Text

-- `Meta::default()`
abbrev pub default_meta : Meta
default_meta = record {
  id = [];
  version = 0;
  project_id = [];
  owner_user_id = [];
  team_id = [];
  visibility = pos 0;
  created_by = [];
  updated_by = [];
  created_at = none;
  updated_at = none;
  deleted_at = none;
  derived_from = [];
}

pub record Idempotency : Type 0 where
  pub key : Text

pub record Task : Type 0 where
  pub meta : Option Meta
  pub number : ℕ
  pub title : Text
  pub body : Text
  pub status : ℤ
  pub tags : List Text
  pub links : List Text

-- `google.protobuf.FieldMask`
pub record FieldMask : Type 0 where
  pub paths : List Text

pub record CreateTaskRequest : Type 0 where
  pub idempotency : Option Idempotency
  pub scope : Option Scope
  pub task : Option Task

pub record CreateTaskResponse : Type 0 where
  pub meta : Option Meta
  pub number : ℕ

pub record UpdateTaskRequest : Type 0 where
  pub idempotency : Option Idempotency
  pub scope : Option Scope
  pub id : Text
  pub expect_version : ℕ
  pub task : Option Task
  pub update_mask : Option FieldMask
  pub caller_fingerprint : List ℕ

pub record UpdateTaskResponse : Type 0 where
  pub meta : Option Meta
  pub previous_status : ℤ

pub record DeleteTaskRequest : Type 0 where
  pub idempotency : Option Idempotency
  pub scope : Option Scope
  pub id : Text
  pub expect_version : ℕ
  pub caller_fingerprint : List ℕ

pub record DeleteTaskResponse : Type 0 where

-- `get_task_request::Key`
pub data Key : Type 0 where
  id : Text → Key
  number : ℕ → Key

pub record GetTaskRequest : Type 0 where
  pub scope : Option Scope
  pub key : Option Key

pub record GetTaskResponse : Type 0 where
  pub task : Option Task

pub record ListTasksRequest : Type 0 where
  pub scope : Option Scope
  pub statuses : List ℤ
  pub page_size : ℤ
  pub page_token : Text

pub record ListTasksResponse : Type 0 where
  pub tasks : List Task
  pub next_page_token : Text

-- `enum TaskStatus`
pub data TaskStatus : Type 0 where
  task_status_unspecified open_status in_progress blocked done dropped : TaskStatus

-- `TaskStatus::try_from`
abbrev pub task_status_of : ℤ → Option TaskStatus
task_status_of (pos zero) = some task_status_unspecified
task_status_of (pos (suc zero)) = some open_status
task_status_of (pos (suc (suc zero))) = some in_progress
task_status_of (pos (suc (suc (suc zero)))) = some blocked
task_status_of (pos (suc (suc (suc (suc zero))))) = some done
task_status_of (pos (suc (suc (suc (suc (suc zero)))))) = some dropped
task_status_of (pos (suc (suc (suc (suc (suc (suc n))))))) = none
task_status_of (negsuc n) = none

-- `s as i8`
abbrev pub task_status_number : TaskStatus → ℤ
task_status_number task_status_unspecified = pos 0
task_status_number open_status = pos 1
task_status_number in_progress = pos 2
task_status_number blocked = pos 3
task_status_number done = pos 4
task_status_number dropped = pos 5

-- `enum WriteRpc`
pub data WriteRpc : Type 0 where
  rpc_unspecified create_task update_task delete_task : WriteRpc

-- `WriteRpc::try_from`
abbrev pub write_rpc_of : ℤ → Option WriteRpc
write_rpc_of (pos zero) = some rpc_unspecified
write_rpc_of (pos (suc zero)) = some create_task
write_rpc_of (pos (suc (suc zero))) = some update_task
write_rpc_of (pos (suc (suc (suc zero)))) = some delete_task
write_rpc_of (pos (suc (suc (suc (suc n))))) = none
write_rpc_of (negsuc n) = none

pub record LookupWriteRequest : Type 0 where
  pub scope : Option Scope
  pub idempotency : Option Idempotency
  pub rpc : ℤ
  pub caller_fingerprint : List ℕ

-- `lookup_write_response::Outcome`
pub data Outcome : Type 0 where
  create : CreateTaskResponse → Outcome
  update : UpdateTaskResponse → Outcome
  delete : DeleteTaskResponse → Outcome

pub record LookupWriteResponse : Type 0 where
  pub outcome : Option Outcome
