-- ===== src/Resume.antt =====
-- checkpoint-restore/controlplane/internal/resume: what the workflows that move sessions share. The
-- workers answer over HTTP and the plans and templates come from Kubernetes: both are arguments here.
pub mod Types
pub mod Cas
pub mod Plan
pub mod Start
pub mod Workflow
pub mod Suspend
pub mod Checkpoint
pub mod Heal
pub mod Handler
