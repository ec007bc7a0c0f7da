-- ===== src/Auth.antt =====
-- pkg/auth: who a token lets in, and the signatures of live-rewind assets.
pub mod Claims
pub mod Access
pub mod Monitors
pub mod AssetSignature
