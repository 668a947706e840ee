-- ===== src/Action/Domain.antt =====
-- internal/action/domain.go: a domain on a host. The action holds the handle, once the domain exists,
-- and the definition that the setters of Setup and Disk fill in.
pub mod TargetDev
pub mod State
pub mod Setup
pub mod Disk
pub mod Shutdown
