-- ===== src/Domain.antt =====
-- Core/Include: the domain entities, their validators and their value objects.
pub mod Roles
pub mod Types
pub mod Tag
pub mod User
pub mod Session
pub mod Message
pub mod Chat
