-- ===== src/Spec.antt =====
-- be/src/spec: what is hashed of a runner's details.
pub mod Normalize
pub mod Totp
pub mod Tests
