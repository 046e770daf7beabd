-- ===== src/Gateway.antt =====
-- workflow-gateway: the HTTP gateway in front of the workflow runners.
pub mod Routing
pub mod Lease
pub mod Catalog
pub mod Platform
pub mod DataIndex
pub mod Definitions
pub mod Server
