-- ===== src/Pagination.antt =====
-- Cursor pagination: api/utils/pagination.py, and the statement that the lists of the library send,
-- `SELECT * FROM … WHERE … AND id < $1::uuid ORDER BY id DESC LIMIT $2`.
pub mod Page
pub mod Select
pub mod Order
pub mod Follow
pub mod Listed
pub mod Unary
