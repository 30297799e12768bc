-- ===== src/Storage.antt =====
-- src/gafaelfawr/storage/token.py: the token tables of the database, and the tokens in Redis.
pub mod Redis
pub mod Database
pub mod Queries
pub mod Tree
pub mod World
pub mod Consistency
