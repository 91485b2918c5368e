-- ===== src/Users.antt =====
-- The accounts of src/users.
pub mod ExpoAccount
