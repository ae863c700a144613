-- ===== src/Controllers.antt =====
-- checkpoint-restore/controlplane/internal/controller: the reconcilers of the custom resources.
pub mod Forks
pub mod Requests
pub mod Plans
pub mod Pools
pub mod Promotion
pub mod Reaper
use sandboxd_teleport.Prelude.{ℕ}

-- What a pass of a reconciler returns: nothing more to do, Requeue, RequeueAfter of some seconds, or
-- an error.
pub data Outcome : Type 0 where
  finished requeued erred : Outcome
  delayed : ℕ → Outcome
