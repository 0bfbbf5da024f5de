-- ===== src/Database.antt =====
-- internal/database: the SQLite database behind the server, one module for each Go file, over
-- the tables and errors of State and the constrained statements of Statements.
pub mod State
pub mod Statements
pub mod Setup
pub mod Opening
pub mod Credentials
pub mod Admin
pub mod Push
pub mod Requests
pub mod Enrollment
pub mod Devices
pub mod Items
pub mod Schedules
pub mod Invariant
pub mod Examples
