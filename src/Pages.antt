-- ===== src/Pages.antt =====
-- The pages of dependencies/lmdb/libraries/liblmdb/mdb.c: how keys are compared and searched.
pub mod Compare
pub mod Orders
pub mod Integers
pub mod Search
pub mod Locates
pub mod Nodes
pub mod Delete
pub mod Adding
pub mod Writes
pub mod Placed
pub mod Add
pub mod Sizes
