-- ===== src/Merge.antt =====
-- pkg/controller/managedresource/merger.go: the desired state is merged into the current one. The
-- kinds with rules of their own are in the children.
mod Maps
mod Pods
mod Kinds
mod Services
mod Whole
unfoldable pub use Maps.*
unfoldable pub use Pods.*
unfoldable pub use Kinds.*
unfoldable pub use Services.*
unfoldable pub use Whole.*
