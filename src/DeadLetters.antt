-- ===== src/DeadLetters.antt =====
-- Dead letter tasks: api/apps/common/v0/dao/dead_letter_task.py and
-- api/apps/common/v0/service/dead_letter_task.py
pub mod Dao
pub mod Service
pub mod Values
mod Retrigger
mod Selection
pub mod Capture
mod Recovery
mod Lists
mod Tests
