-- ===== src/Snapshot.antt =====
-- src/bpf-snapshot.c, `client-access-bpf snapshot-sync`: the snapshot read from the standard input
-- and its publication in the maps.
pub mod Examples
pub mod Prefix
pub mod Line
pub mod Table
pub mod Sync
