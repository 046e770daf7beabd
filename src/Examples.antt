-- ===== src/Examples.antt =====
-- Concrete data, and each theorem applied to it.
pub mod Data
mod Resources
mod Routes
mod Catalogs
mod Requests
mod Platforms
mod Admissions
mod Reconciles
mod Splits
mod Pools
mod Runners
mod Exposures
mod Operators
