-- ===== src/Gateway.antt =====
-- services/gateway-api/src: the HTTP gateway, its guards and the routes that write jobs, definitions and
-- projects.
pub mod Auth
pub mod Definitions
pub mod Entities
pub mod Jobs
pub mod Projects
pub mod Uploads
