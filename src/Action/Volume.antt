-- ===== src/Action/Volume.antt =====
-- internal/action/volume.go: a volume on a host.
pub mod State
pub mod Source
pub mod Resize
