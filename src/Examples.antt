-- ===== src/Examples.antt =====
-- The tools of the demonstration programs (examples/).
pub mod Stream
pub mod Gpio
pub mod Network
pub mod Process
pub mod Sysinfo
pub mod Thermal
pub mod Demo
