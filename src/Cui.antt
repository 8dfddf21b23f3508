-- ===== src/Cui.antt =====
-- util/intop/cui.py: the curses interface, on the keys that are pressed. The beep is left out.
mod Tests
pub mod Keys
pub mod Edit
pub mod Select
pub mod Settings
pub mod Info
pub mod Draw
pub mod Session
pub mod Times
pub mod Startup
