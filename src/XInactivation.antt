-- ===== src/XInactivation.antt =====
-- x-inactivation/: the wrapper that starts one of two builds of kube-apiserver on a node, keeps the
-- node's choice on disk, and lets a crash-looping node switch once.
pub mod Disk
pub mod Cell
pub mod Crash
pub mod Start
pub mod Wrapper
mod Examples
mod StartExamples
