-- ===== src/Networking.antt =====
-- Server/Source/Networking: requests, the router and the helpers of the controllers.
pub mod Http
pub mod Segments
pub mod Routes
pub mod Router
pub mod Credentials
pub mod Json
pub mod Controllers
