-- ===== src/Cla.antt =====
-- dtnd7-go/pkg/cla: the convergence layers' manager and the types of convergence layers.
pub mod Types
pub mod Manager
pub mod Examples
