-- ===== src/Datapath.antt =====
-- src/client-access-bpf.c: the TC ingress program, a module for each group of its functions.
pub mod Parse
pub mod State
pub mod Verdict
pub mod Classify
pub mod Rate
pub mod Flow
pub mod Ingress
