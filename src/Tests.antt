-- ===== src/Tests.antt =====
-- Concrete runs of the code's models, and the theorems at concrete inputs.
mod Packets
mod Pdus
mod Lists
mod Timing
mod Host
mod Radio
mod Scheduler
mod Pairing
mod Links
mod Server
