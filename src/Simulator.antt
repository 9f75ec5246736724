-- ===== src/Simulator.antt =====
-- A simulated device: simulators/simulated_device.py and simulators/profiles/.
pub mod Levels
pub mod Profiles
pub mod Recent
pub mod Device
pub mod Bounds
pub mod Once
pub mod Steps
pub mod Life
pub mod Rejected
pub mod Http
pub mod Client
pub mod Credentials
pub mod Proofs
pub mod Able
pub mod Enrolled
