-- ===== src/AppData.antt =====
-- rca_agent/app_db.py and rca_agent/app_mongo.py: the read-only, masked access to the application's
-- data.
pub mod Mask
pub mod Documents
pub mod Secrecy
pub mod Mongo
pub mod Queries
mod Tests
pub mod Postgres
