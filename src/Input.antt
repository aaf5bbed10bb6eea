-- ===== src/Input.antt =====
-- The keyboard driver, kbd.rs, and the direct input path, input_direct.rs.
pub mod Events
pub mod Keyboard
pub mod Tests
