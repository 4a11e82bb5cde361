-- ===== src/Auth.antt =====
-- pkg/authentication: users, roles, redirect targets, cookie domains and the claims of a user.
pub mod User
pub mod Rbac
pub mod Domain
pub mod Redirect
pub mod Tests
