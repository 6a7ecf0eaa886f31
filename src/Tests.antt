-- ===== src/Tests.antt =====
-- Runs of the model on concrete inputs, and each result of the library applied to one.
pub mod Placements
pub mod Shops
pub mod Drivers
pub mod Messages
pub mod Gates
pub mod Machines
pub mod Compatibility
pub mod Sales
pub mod Startups
pub mod Routes
pub mod Configurations
pub mod Layers
pub mod Commands
pub mod Registrations
pub mod Constructions
