-- ===== src/Tests.antt =====
-- A small host, a small API server, and the theorems applied to them.
mod Fixtures
mod Util
mod Domain
mod Volume
mod Controllers
mod VolumeController
mod DomainController
mod Webhook
mod Stores
mod AuthController
mod HostController
mod CloudInitController
mod FakeHost
mod Reports
mod Probe
mod Process
