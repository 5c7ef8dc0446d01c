-- ===== src/Tests.antt =====
-- Runs of the modelled code of midl.c, mdb.c and src/ on concrete data, and the theorems at such
-- data.
mod Data
mod Lists
mod Sorted
mod Keys
mod Search
mod Nodes
mod Values
mod Opens
mod Reads
mod Waits
mod Writes
mod Txns
mod Envs
mod Handshakes
mod Cursors
mod Sorts
