-- ===== src/Model/Bgp.antt =====
-- model/bgp.rs: BGP processes and their neighbors.
use aria_underlay.Base.{ℕ, Text, Option, ◌++◌, ℕ_discrete, text}

pub record BgpProcess : Type 0 where
  pub vrf : Text
  pub local_as : ℕ  -- u32
  pub router_id : Option Text

pub record BgpNeighbor : Type 0 where
  pub vrf : Text
  pub address : Text
  pub remote_as : ℕ  -- u32
  pub description : Option Text
  pub import_policy : Option Text
  pub export_policy : Option Text

pub BgpProcess-discrete : Discrete BgpProcess
BgpProcess-discrete = hlevel ℕ_discrete

pub BgpNeighbor-discrete : Discrete BgpNeighbor
BgpNeighbor-discrete = hlevel ℕ_discrete

unfoldable pub bgp_neighbor_key : Text → Text → Text
bgp_neighbor_key vrf address = vrf ++ text "|" ++ address

-- `BgpNeighbor::key`.
abbrev pub neighbor_key : BgpNeighbor → Text
neighbor_key n = bgp_neighbor_key n.vrf n.address
