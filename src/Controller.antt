-- ===== src/Controller.antt =====
-- internal/controller: the reconcilers.
pub mod Objects
pub mod Workload
pub mod Quarkus
pub mod Variables
pub mod Pool
pub mod Runner
pub mod Status
pub mod Runtime
pub mod Definition
pub mod Traffic
pub mod Ingress
pub mod Address
pub mod Service
pub mod Networking
pub mod Platform
pub mod Persistence
pub mod DataIndex
