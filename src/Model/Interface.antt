-- ===== src/Model/Interface.antt =====
-- model/interface.rs.
use aria_underlay.Base.{ℕ, Text, Option, List, ℕ_discrete}

pub data AdminState : Type 0 where
  up down : AdminState

pub data PortMode : Type 0 where
  access : (vlan_id : ℕ) → PortMode
  trunk : (native_vlan : Option ℕ) (allowed_vlans : List ℕ) → PortMode

pub record InterfaceConfig : Type 0 where
  pub name : Text
  pub admin_state : AdminState
  pub description : Option Text
  pub mode : PortMode

pub InterfaceConfig-discrete : Discrete InterfaceConfig
InterfaceConfig-discrete = hlevel ℕ_discrete
