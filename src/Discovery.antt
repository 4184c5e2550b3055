-- ===== src/Discovery.antt =====
-- dtnd7-go/pkg/discovery: announcements of a node's convergence layers and what a received one starts.
pub mod Announcement
pub mod Manager
pub mod Examples
