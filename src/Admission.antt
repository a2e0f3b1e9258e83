-- ===== src/Admission.antt =====
-- admission/: what the plugins of the API server do to a request.
pub mod Antigens
pub mod Immunity
pub mod NewbornCare
pub mod NoBruteForce
pub mod StartingDose
mod Examples
