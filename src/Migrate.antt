-- ===== src/Migrate.antt =====
-- migrate.py: the runner of the SQL migrations.
pub mod Sections
pub mod Sequence
pub mod Runner
pub mod Parsing
pub mod Applying
mod Tests
