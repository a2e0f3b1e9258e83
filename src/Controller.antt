-- ===== src/Controller.antt =====
-- kubernetes/overlay/pkg/kyvernetria/controller/: the controllers of the controller manager.
pub mod Gestation
pub mod Worry
pub mod Relationships
mod Examples
