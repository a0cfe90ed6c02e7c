-- ===== src/Database.antt =====
-- Server/Include/Database and Server/Source/Database/Postgres: connections, transactions, the pool.
pub mod Connection
pub mod Transaction
pub mod Pool
