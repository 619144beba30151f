-- ===== src/Model/Acl.antt =====
-- model/acl.rs: access lists, their rules, and where they are bound.
use aria_underlay.Base.{ℕ, Text, Option, List, ◌++◌, ℕ_discrete, text}

pub data AclAction : Type 0 where
  permit deny : AclAction

pub data AclProtocol : Type 0 where
  ip tcp udp icmp : AclProtocol

pub data AclDirection : Type 0 where
  inbound outbound : AclDirection

pub data AclKind : Type 0 where
  advanced_ipv4 basic_ipv4 : AclKind

pub record AclEndpoint : Type 0 where
  pub address : Text
  pub wildcard : Text

pub record AclRule : Type 0 where
  pub sequence : ℕ  -- u16
  pub action : AclAction
  pub protocol : AclProtocol
  pub source : Option AclEndpoint
  pub destination : Option AclEndpoint
  pub source_port_eq : Option ℕ
  pub destination_port_eq : Option ℕ
  pub description : Option Text

pub record AclConfig : Type 0 where
  pub acl_id : ℕ  -- u16
  pub kind : AclKind
  pub name : Option Text
  pub description : Option Text
  pub rules : List AclRule

pub record AclBinding : Type 0 where
  pub interface_name : Text
  pub direction : AclDirection
  pub acl_id : ℕ  -- u16

pub AclConfig-discrete : Discrete AclConfig
AclConfig-discrete = hlevel ℕ_discrete

pub AclBinding-discrete : Discrete AclBinding
AclBinding-discrete = hlevel ℕ_discrete

direction_text : AclDirection → Text
direction_text inbound = text "inbound"
direction_text outbound = text "outbound"

unfoldable pub acl_binding_key : Text → AclDirection → Text
unfolding direction_text
acl_binding_key interface_name direction = interface_name ++ text "|" ++ direction_text direction

-- `AclBinding::key`.
abbrev pub binding_key : AclBinding → Text
binding_key b = acl_binding_key b.interface_name b.direction
