-- ===== src/Controller/Gestation.antt =====
-- controller/gestation/: one pass of the gestation controller over one gestation.
pub mod State
pub mod Birth
pub mod Score
pub mod Nursery
pub mod Reserve
pub mod Reconcile
pub mod Remembering
pub mod Newborns
pub mod Measuring
pub mod Signs
