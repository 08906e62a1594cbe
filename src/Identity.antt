-- ===== src/Identity.antt =====
-- enterprise/identity.py: principals, roles and their bindings, and the directory of users and groups.
pub mod Principal
pub mod Rbac
pub mod Scim
pub mod Directory
pub mod Tables
pub mod Store
pub mod Roles
mod Tests
