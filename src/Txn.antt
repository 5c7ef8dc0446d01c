-- ===== src/Txn.antt =====
-- The transactions of an environment: src/txn.cpp, `EnvWrap::beginTxn`, `commitTxn`, `abortTxn`,
-- `getReadTxn` and `cleanupStrayTxns` of src/env.cpp, and `AcquireTxn` and `UnlockTxn` of
-- src/writer.cpp.
pub mod State
pub mod Write
pub mod Wraps
