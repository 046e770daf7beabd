-- ===== src/Gateway/Catalog.antt =====
-- workflow-gateway/internal/catalog: the routing table, built from the services and definitions.
pub mod Urls
pub mod Build
pub mod Watcher
pub mod Table
