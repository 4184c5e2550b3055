-- ===== src/Store.antt =====
-- dtnd7-go/pkg/store: bundle descriptors and the store.
pub mod Constraints
pub mod Descriptor
pub mod Bundles
pub mod Examples
