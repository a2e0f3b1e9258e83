-- ===== src/Kyvctl.antt =====
-- kubernetes/overlay/pkg/kyvernetria/kyvctl/: the parts of the command line that compute.
pub mod Mosaic
