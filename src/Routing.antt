-- ===== src/Routing.antt =====
-- dtnd7-go/pkg/routing: which peers a bundle is forwarded to.
pub mod Peers
pub mod Spray
pub mod Examples
