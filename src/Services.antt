-- ===== src/Services.antt =====
-- Server/Source/Services: the application services.
pub mod Notification
pub mod Auth
pub mod User
pub mod Chat
pub mod Message
