-- ===== src/Intent/Tests.antt =====
-- A list of VLAN identifiers with one that stands twice.
use aria_underlay.Base.{ℕ, List, [], ◌∷◌, text, false, ◌≡◌, refl, all, ◌&&◌}
use aria_underlay.Intent.Checks.{within, validate_vlans}
use aria_underlay.Intent.Vlans.{is_distinct, is_ok, validate_vlans_iff}

abbrev twice : List ℕ
twice = 10 ∷ 4094 ∷ 10 ∷ []

twice_refused : all (within 1 4094) twice && is_distinct twice ≡ false
unfolding is_distinct
twice_refused = refl

validate_vlans_iff_example :
    is_ok (validate_vlans twice (text "underlay domain"))
    ≡ all (within 1 4094) twice && is_distinct twice
validate_vlans_iff_example = validate_vlans_iff (text "underlay domain") twice
