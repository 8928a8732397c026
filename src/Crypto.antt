-- ===== src/Crypto.antt =====
-- crypto/: the hybrid signature of suite.go, signing_context.go, classical.go, mldsa.go and hybrid.go.
pub mod Context
pub mod Hybrid
