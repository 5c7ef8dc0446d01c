-- ===== src/Midl.antt =====
-- ID lists (dependencies/lmdb/libraries/liblmdb/midl.c, midl.h).
pub mod BinarySearch
pub mod Idl
pub mod Append
pub mod Room
pub mod Search
pub mod Sort
pub mod Merge
pub mod Id2l
