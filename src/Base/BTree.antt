-- ===== src/Base/BTree.antt =====
-- `BTreeMap` and `BTreeSet` of the standard library as lists that ascend by key. A map is walked in
-- the order of its keys, so the order of entries is part of the model.
mod Laws
mod Sorted
mod Collect
mod Ext
unfoldable pub use Defs.*
pub use Laws.*
pub use Sorted.*
pub use Collect.*
pub use Ext.*
mod Defs
