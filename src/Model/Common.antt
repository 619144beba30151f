-- ===== src/Model/Common.antt =====
-- model/common.rs: device identities and the vocabulary of vendors and roles.
use aria_underlay.Base.{ℕ, Text, Bool, ◌&&◌, ◌||◌, not, ◌==◌, all, is_empty, is_ascii_alphanumeric}

-- `DeviceId(String)`. Its order is that of the text.
abbrev pub DeviceId : Type 0
DeviceId = Text

pub data Vendor : Type 0 where
  huawei h3c cisco ruijie unknown : Vendor

pub data DeviceRole : Type 0 where
  leaf_a leaf_b : DeviceRole

pub is_canonical_char : ℕ → Bool
is_canonical_char c = is_ascii_alphanumeric c || (c == b'-' || c == b'_')

unfoldable pub is_canonical_identifier : Text → Bool
unfolding is_canonical_char is_ascii_alphanumeric
is_canonical_identifier value = not (is_empty value) && all is_canonical_char value

abbrev pub is_canonical : DeviceId → Bool
is_canonical id = is_canonical_identifier id
