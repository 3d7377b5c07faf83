-- ===== src/PeriodicTasks.antt =====
-- Periodic tasks and their scheduler: api/apps/common/v0/dao/periodic_task.py,
-- service/periodic_task.py, and api/core/celery_scheduler.py
mod World
pub mod Beat
pub mod Service
mod Changes
mod Seen
mod Entries
mod Ticks
mod Tests
