-- ===== src/Api/Response.antt =====
-- api/response.rs: the results of an apply, per device and of the whole request.
use aria_underlay.Base.{
  ℕ, Text, text, List, [], ◌∷◌, ◌++◌, Option, none, some, Bool, not, ◌||◌, ◌&&◌, length,
  if◌then◌else◌, ℕ_ord, text_ord,
}
use aria_underlay.Base.Print.{decimal_text}
use aria_underlay.Base.BTree.{BTreeSet, insert_key}
use aria_underlay.Model.{DeviceId, acl_binding_key, binding_key, AclDirection}
use aria_underlay.Engine.Diff.{
  ChangeOp, ChangeSet, create_vlan, update_vlan, delete_vlan, update_interface,
  delete_interface_config, create_acl, update_acl, delete_acl, create_acl_binding,
  update_acl_binding, delete_acl_binding,
}
use aria_underlay.Tx.Strategy.{TransactionStrategy}
pub mod Report

pub data ApplyStatus : Type 0 where
  no_op_success success success_with_warning partial_success failed rolled_back : ApplyStatus
  in_doubt : ApplyStatus

pub data DeviceVerifyStatus : Type 0 where
  passed failed skipped in_doubt : DeviceVerifyStatus

pub data ApplyVerifyStatus : Type 0 where
  passed failed partial skipped in_doubt : ApplyVerifyStatus

pub record VerifyScopeSummary : Type 0 where
  pub vlan_count : ℕ
  pub interface_count : ℕ
  pub acl_count : ℕ
  pub acl_binding_count : ℕ
  pub delete_vlan_count : ℕ
  pub delete_interface_count : ℕ
  pub delete_acl_count : ℕ
  pub delete_acl_binding_count : ℕ

-- The sets that `from_change_set` fills.
pub record Scope : Type 0 where
  pub vlans : BTreeSet ℕ
  pub interfaces : BTreeSet Text
  pub acls : BTreeSet ℕ
  pub acl_bindings : BTreeSet Text
  pub delete_vlans : BTreeSet ℕ
  pub delete_interfaces : BTreeSet Text
  pub delete_acls : BTreeSet ℕ
  pub delete_acl_bindings : BTreeSet Text

unfoldable pub add_op : ChangeOp → Scope → Scope
add_op (create_vlan v) s = record s { vlans = insert_key v.vlan_id s.vlans }
add_op (update_vlan before v) s = record s { vlans = insert_key v.vlan_id s.vlans }
add_op (delete_vlan vlan_id) s = record s { delete_vlans = insert_key vlan_id s.delete_vlans }
add_op (update_interface before i) s = record s { interfaces = insert_key i.name s.interfaces }
add_op (delete_interface_config name) s = record s {
  delete_interfaces = insert_key name s.delete_interfaces;
}
add_op (create_acl a) s = record s { acls = insert_key a.acl_id s.acls }
add_op (update_acl before a) s = record s { acls = insert_key a.acl_id s.acls }
add_op (delete_acl acl_id) s = record s { delete_acls = insert_key acl_id s.delete_acls }
add_op (create_acl_binding b) s = record s {
  acl_bindings = insert_key (binding_key b) s.acl_bindings;
}
add_op (update_acl_binding before b) s = record s {
  acl_bindings = insert_key (binding_key b) s.acl_bindings;
}
add_op (delete_acl_binding interface_name direction acl_id) s = record s {
  delete_acl_bindings =
      insert_key (acl_binding_key interface_name direction ++ text "|" ++ decimal_text acl_id)
        s.delete_acl_bindings;
}
add_op _ s = s

unfoldable pub add_ops : List ChangeOp → Scope → Scope
add_ops [] s = s
add_ops (op ∷ ops) s = add_ops ops (add_op op s)

abbrev pub no_scope : Scope
no_scope = record {
  vlans = [];
  interfaces = [];
  acls = [];
  acl_bindings = [];
  delete_vlans = [];
  delete_interfaces = [];
  delete_acls = [];
  delete_acl_bindings = [];
}

unfoldable pub from_change_set : ChangeSet → VerifyScopeSummary
from_change_set c =
    let s = add_ops c.ops no_scope in
    record {
      vlan_count = length s.vlans;
      interface_count = length s.interfaces;
      acl_count = length s.acls;
      acl_binding_count = length s.acl_bindings;
      delete_vlan_count = length s.delete_vlans;
      delete_interface_count = length s.delete_interfaces;
      delete_acl_count = length s.delete_acls;
      delete_acl_binding_count = length s.delete_acl_bindings;
    }

-- `VerifyScopeSummary::default()`.
abbrev pub default_scope : VerifyScopeSummary
default_scope = record {
  vlan_count = 0;
  interface_count = 0;
  acl_count = 0;
  acl_binding_count = 0;
  delete_vlan_count = 0;
  delete_interface_count = 0;
  delete_acl_count = 0;
  delete_acl_binding_count = 0;
}

pub record DeviceVerifyReport : Type 0 where
  pub device_id : DeviceId
  pub status : DeviceVerifyStatus
  pub source : Text
  pub scope : VerifyScopeSummary
  pub warnings : List Text
  pub error_code : Option Text
  pub error_message : Option Text

abbrev verify_source : Text
verify_source = text "adapter_scoped_verify"

-- `DeviceVerifyReport::passed`, `failed`, `skipped` and `in_doubt`.
unfoldable pub passed_report : DeviceId → VerifyScopeSummary → List Text → DeviceVerifyReport
passed_report device_id scope warnings = record {
  device_id = device_id;
  status = DeviceVerifyStatus.passed;
  source = verify_source;
  scope = scope;
  warnings = warnings;
  error_code = none;
  error_message = none;
}

unfoldable pub failed_report :
    DeviceId → VerifyScopeSummary → Text → Text → List Text → DeviceVerifyReport
failed_report device_id scope error_code error_message warnings = record {
  device_id = device_id;
  status = DeviceVerifyStatus.failed;
  source = verify_source;
  scope = scope;
  warnings = warnings;
  error_code = some error_code;
  error_message = some error_message;
}

unfoldable pub skipped_report : DeviceId → DeviceVerifyReport
skipped_report device_id = record {
  device_id = device_id;
  status = DeviceVerifyStatus.skipped;
  source = verify_source;
  scope = default_scope;
  warnings = [];
  error_code = none;
  error_message = none;
}

unfoldable pub in_doubt_report : DeviceId → Text → Text → DeviceVerifyReport
in_doubt_report device_id error_code error_message = record {
  device_id = device_id;
  status = DeviceVerifyStatus.in_doubt;
  source = verify_source;
  scope = default_scope;
  warnings = [];
  error_code = some error_code;
  error_message = some error_message;
}

pub record DeviceApplyResult : Type 0 where
  pub device_id : DeviceId
  pub changed : Bool
  pub status : ApplyStatus
  pub tx_id : Option Text
  pub strategy : Option TransactionStrategy
  pub error_code : Option Text
  pub error_message : Option Text
  pub warnings : List Text
  pub verify_report : Option DeviceVerifyReport

pub record ApplyVerifyReport : Type 0 where
  pub status : ApplyVerifyStatus
  pub passed : List DeviceId
  pub failed : List DeviceId
  pub skipped : List DeviceId
  pub in_doubt : List DeviceId
  pub attention_required : Bool
  pub warning_count : ℕ

pub record ApplyIntentResponse : Type 0 where
  pub request_id : Text
  pub trace_id : Text
  pub idempotency_key : Option Text
  pub reused : Bool
  pub tx_id : Option Text
  pub status : ApplyStatus
  pub strategy : Option TransactionStrategy
  pub device_results : List DeviceApplyResult
  pub warnings : List Text
  pub verify_report : Option ApplyVerifyReport
