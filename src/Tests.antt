-- ===== src/Tests.antt =====
-- Runs of the model at inputs of the repository's tests, and the theorems at concrete inputs.
pub mod Floats
pub mod Hk
pub mod HkTheorems
pub mod HkReferences
pub mod Projects
pub mod Flows
pub mod Systems
pub mod Hooks
pub mod Images
pub mod Layers
pub mod Willing
