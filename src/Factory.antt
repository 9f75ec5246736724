-- ===== src/Factory.antt =====
-- scripts/factory_provision_esp32.py: what the manufacturing station says to a unit on the serial port,
-- and to the server about it.
pub mod Serial
pub mod Stages
pub mod Completed
pub mod Injected
pub mod Kept
pub mod Provision
pub mod Sealed
