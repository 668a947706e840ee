-- ===== src/Host/Fake.antt =====
-- The fake host of internal/host/fake: the client that the operator's tests run against, as an
-- instance of Client over its state.
pub mod State
pub mod Storage
pub mod Domains
pub mod Connection
pub mod RoundTrip
pub mod Lifecycle
