-- ===== src/Db.antt =====
-- The database blocks of src/DBMB.
pub mod Mysql
pub mod Handles
pub mod Statements
pub mod Postgres
pub mod Nova
pub mod Orche
mod Tests
mod RowTests
