-- ===== src/Sfo.antt =====
-- sfo/client-access-sfoctl.c: the controller of software flow offload. It destroys the conntrack
-- entries of flows whose access is revoked, and drops idle flow records.
pub mod Tuple
pub mod Candidates
pub mod Scan
pub mod Report
pub mod Revoke
pub mod Gc
pub mod Fallback
pub mod Command
pub mod Examples
