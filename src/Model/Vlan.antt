-- ===== src/Model/Vlan.antt =====
-- model/vlan.rs.
use aria_underlay.Base.{ℕ, Text, Option, ℕ_discrete}

pub record VlanConfig : Type 0 where
  pub vlan_id : ℕ  -- u16
  pub name : Option Text
  pub description : Option Text

unfoldable pub VlanConfig-discrete : Discrete VlanConfig
VlanConfig-discrete = hlevel ℕ_discrete
