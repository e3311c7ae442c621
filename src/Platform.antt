-- ===== src/Platform.antt =====
-- What stands around the routes of the backend: backend-core/src/common/cors.ts and
-- backend-core/src/observability.
pub mod Cors
pub mod RequestId
pub mod Health
pub mod Metrics
