-- ===== src/Kernel.antt =====
-- What the three kernel drivers use of the operating system.
pub mod Pool
pub mod Status
pub mod Clock
pub mod Text
