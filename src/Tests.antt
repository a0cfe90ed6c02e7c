-- ===== src/Tests.antt =====
-- The theorems at concrete inputs.
mod Auth
mod Users
mod Notification
mod Domain
mod Networking
mod Database
mod Messages
mod Chats
mod ChatTables
mod Controllers
mod Routes
