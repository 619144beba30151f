-- ===== src/Model.antt =====
-- model/: the configuration that the controller manages on a device.
mod Acl
mod Bgp
mod Common
mod Interface
mod Vlan
unfoldable pub use Acl.*
unfoldable pub use Bgp.*
unfoldable pub use Common.*
pub use Interface.*
unfoldable pub use Vlan.*
