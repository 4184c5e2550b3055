-- ===== src/Bpv7.antt =====
-- dtnd7-go/pkg/bpv7: the Bundle Protocol's data model.
pub mod Outcome
pub mod Env
pub mod Flags
pub mod Endpoint
pub mod Crc
pub mod Time
pub mod Block
pub mod Primary
pub mod Bundle
pub mod BundleId
pub mod Fragment
pub mod Reassemble
pub mod Decode
pub mod Report
pub mod Examples
