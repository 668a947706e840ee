-- ===== src/Controller.antt =====
-- internal/controller: the reconcilers.
pub mod Base
pub mod Writes
pub mod Conditions
pub mod Probed
pub mod Pool
pub mod Network
pub mod PciDevice
pub mod Volume
pub mod Domain
pub mod Auth
pub mod Dialer
pub mod Host
pub mod Watch
pub mod CloudInit
