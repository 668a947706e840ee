-- ===== src/Action.antt =====
-- internal/action: what the controllers do to a host through the client.
pub mod Domain
pub mod Volume
