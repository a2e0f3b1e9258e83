-- ===== src/Gestation.antt =====
-- kubernetes/overlay/pkg/kyvernetria/gestation/: what a service's launch needs without a cluster.
pub mod Pregnancy
pub mod Apgar
pub mod Care
pub mod Memory
pub mod Growth
pub mod Screening
mod Examples
