-- ===== src/Auth.antt =====
-- The identity component of the backend: backend-core/src/auth.
pub mod TokenStore
pub mod Session
pub mod TwoFactor
pub mod Service
pub mod Guards
pub mod Controller
pub mod SecretCrypto
