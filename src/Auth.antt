-- ===== src/Auth.antt =====
-- main/auth.cpp: who may use the hub. The API token, the admin password, the lockout of peers that
-- fail, the three routes under /api/auth, and what the module reads from flash at boot.
pub mod Lockout
pub mod Storage
pub mod State
pub mod Token
pub mod Password
pub mod Requests
pub mod Routes
pub mod Boot
