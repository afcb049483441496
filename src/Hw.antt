-- ===== src/Hw.antt =====
-- The parts of src/hw/, with the radio and the timer under them.
pub mod Timers
pub mod Hop
pub mod Ble
pub mod Bonds
pub mod Io
pub mod Queue
pub mod Radio
pub mod Smp
pub mod Ccm
pub mod Conn
