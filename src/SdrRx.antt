-- ===== src/SdrRx.antt =====
-- src/sdr/sdr-rx-machine.c: the machine that all the radios share.
pub mod Buffer
pub mod Devices
pub mod Read
mod Tests
