-- ===== src/Admission.antt =====
-- The admission webhooks of api/v1: what the API server accepts, and the defaults it fills in.
pub mod Service
pub mod Definition
pub mod Platform
pub mod Runtime
