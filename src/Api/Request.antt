-- ===== src/Api/Request.antt =====
-- api/request.rs: what a caller asks the service for.
use aria_underlay.Base.{Text, Option, Bool}
use aria_underlay.Intent.{SwitchPairIntent, UnderlayDomainIntent}
use aria_underlay.Api.Coordinator.Single.{DriftPolicy}

pub data ApplyLockScope : Type 0 where
  domain region switch_pair : ApplyLockScope

pub record ApplyOptions : Type 0 where
  pub dry_run : Bool
  pub allow_degraded_atomicity : Bool
  pub drift_policy : DriftPolicy
  pub lock_scope : ApplyLockScope
  pub region_id : Option Text

pub record ApplyIntentRequest : Type 0 where
  pub request_id : Text
  pub trace_id : Option Text
  pub intent : SwitchPairIntent
  pub options : ApplyOptions

pub record ApplyDomainIntentRequest : Type 0 where
  pub request_id : Text
  pub trace_id : Option Text
  pub idempotency_key : Option Text
  pub intent : UnderlayDomainIntent
  pub options : ApplyOptions
