-- ===== src/Engine/Profile.antt =====
-- device/model_profile.rs: what is known of the models that a device supports.
use aria_underlay.Base.{ℕ, Text, Option, List, Bool}
use aria_underlay.Model.{Vendor}

pub data ModelProtocol : Type 0 where
  open_config_gnmi open_config_netconf vendor_native_yang vendor_cli : ModelProtocol

pub data WriteReadiness : Type 0 where
  read_only write_safe write_rejected : WriteReadiness

pub record ModelPathSupport : Type 0 where
  pub protocol : ModelProtocol
  pub model : Text
  pub revision : Option Text
  pub path : Text
  pub readable : Bool
  pub writable : Bool
  pub verified_on_device : Bool
  pub deviations : List Text
  pub notes : List Text

pub record DeviceModelProfile : Type 0 where
  pub profile_id : Text
  pub vendor : Vendor
  pub model : Text
  pub os_version : Text
  pub paths : List ModelPathSupport
  pub pbr_write_readiness : WriteReadiness
  pub bgp_write_readiness : WriteReadiness
  pub rejection_reasons : List Text
  pub yang_module_count : ℕ  -- u32
