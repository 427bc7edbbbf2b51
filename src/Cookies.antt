-- ===== src/Cookies.antt =====
-- backend/src/role_builder/services/credentials_validator.py. A text is the list of its code points.
pub mod Texts
pub mod Parser
pub mod Validator
