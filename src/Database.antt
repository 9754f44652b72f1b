-- ===== src/Database.antt =====
-- indexer/internal/db: the drivers (db.go) and the migrations (migrate.go).
mod Tests
pub mod Driver
pub mod Split
pub mod Migrate
pub mod Open
