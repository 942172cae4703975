-- ===== src/Database.antt =====
-- class DB (core/db.cxx): statements that are sent to PostgreSQL, and what their results become.
pub mod Statement
pub mod Store
