-- ===== src/Util.antt =====
-- internal/util/util.go: unit conversion and labels. Marshal only calls the YAML library.
pub mod Bytes
pub mod Labels
