-- ===== src/Repositories.antt =====
-- Server/Source/Database/Postgres/Repositories: the statements that the user and the session
-- repository send, and their meaning on the tables of db/migrations/V1__Init.sql.
pub mod Rows
pub mod Where
pub mod ChatStore
pub mod Chats
pub mod Messages
pub mod ChatValidity
pub mod Store
pub mod Validity
