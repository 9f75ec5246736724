-- ===== src/Manufacturing.antt =====
-- The manufacturing station: scripts/manufacturing_agent.py.
pub mod Products
pub mod Output
pub mod Agent
pub mod Requests
pub mod Station
pub mod Ending
