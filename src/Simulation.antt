-- ===== src/Simulation.antt =====
-- The programs under simulators/: the manager of the fleet, and the simulated devices.
pub mod Numbers
pub mod Allocation
pub mod Manager
pub mod Fleet
pub mod Ids
