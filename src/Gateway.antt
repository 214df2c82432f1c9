-- ===== src/Gateway.antt =====
-- internal/gateway: the serving gateway's request path and its admission guard.
pub mod Types
pub mod Exposition
pub mod Pressure
pub mod Scraper
pub mod Manager
pub mod Limiter
pub mod Admission
pub mod Policy
pub mod Router
pub mod Writer
pub mod Forward
pub mod Tenant
pub mod Body
pub mod Reply
pub mod Stages
pub mod Server
pub mod Flags
