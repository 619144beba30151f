-- ===== src/State/Drift/Summaries.antt =====
-- The lines in which state/drift.rs shows an object to the operator, `{:?}` included.
use aria_underlay.Base.{ℕ, Text, text, List, [], ◌++◌, Option, none, some, length, map}
use aria_underlay.Base.Print.{decimal_text, join}
use aria_underlay.Model.{
  VlanConfig, AdminState, up, down, PortMode, access, trunk, InterfaceConfig, AclConfig,
  AclDirection, inbound, outbound, AclBinding,
}

-- `as_deref().unwrap_or("")`.
abbrev pub or_empty : Option Text → Text
or_empty none = []
or_empty (some s) = s

abbrev pub admin_text : AdminState → Text
admin_text up = text "Up"
admin_text down = text "Down"

abbrev pub direction_name : AclDirection → Text
direction_name inbound = text "Inbound"
direction_name outbound = text "Outbound"

abbrev pub option_text : Option ℕ → Text
option_text none = text "None"
option_text (some n) = text "Some(" ++ (decimal_text n ++ text ")")

abbrev pub numbers_text : List ℕ → Text
numbers_text ns = text "[" ++ (join (text ", ") (map decimal_text ns) ++ text "]")

unfoldable pub mode_text : PortMode → Text
mode_text (access vlan_id) = text "Access { vlan_id: " ++ (decimal_text vlan_id ++ text " }")
mode_text (trunk native_vlan allowed_vlans) =
    text "Trunk { native_vlan: "
    ++ (option_text native_vlan
        ++ (text ", allowed_vlans: " ++ (numbers_text allowed_vlans ++ text " }")))

unfoldable pub vlan_summary : VlanConfig → Text
vlan_summary v =
    text "id="
    ++ (decimal_text v.vlan_id
        ++ (text ",name=" ++ (or_empty v.name ++ (text ",description=" ++ or_empty v.description))))

unfoldable pub interface_summary : InterfaceConfig → Text
interface_summary i =
    text "name="
    ++ (i.name
        ++ (text ",admin="
            ++ (admin_text i.admin_state
                ++ (text ",description="
                    ++ (or_empty i.description ++ (text ",mode=" ++ mode_text i.mode))))))

unfoldable pub acl_summary : AclConfig → Text
acl_summary a =
    text "id="
    ++ (decimal_text a.acl_id
        ++ (text ",name="
            ++ (or_empty a.name
                ++ (text ",description="
                    ++ (or_empty a.description
                        ++ (text ",rules=" ++ decimal_text (length a.rules)))))))

unfoldable pub acl_binding_summary : AclBinding → Text
acl_binding_summary b =
    text "interface="
    ++ (b.interface_name
        ++ (text ",direction="
            ++ (direction_name b.direction ++ (text ",acl_id=" ++ decimal_text b.acl_id))))
