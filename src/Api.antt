-- ===== src/Api.antt =====
-- api/v1: the resources of the operator.
pub mod Conditions
pub mod Definition
pub mod Service
pub mod Container
pub mod Application
pub mod Client
pub mod Platform
pub mod Runtime
