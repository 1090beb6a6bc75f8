-- ===== src/Access.antt =====
-- Role-based access control of the gateway: app/api/core/rbac.py.
pub mod Roles
pub mod Mines
pub mod Scopes
pub mod Warnings
pub mod Domains
mod Examples
