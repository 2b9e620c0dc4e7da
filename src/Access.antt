-- ===== src/Access.antt =====
-- Authorization: the permission matrices of src/core/types.
pub mod Cashbook
pub mod Workspace
pub mod Desk
