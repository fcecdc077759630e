-- ===== src/Agent/JobTracker.antt =====
-- opendps/agent/job_tracker.py: the jobs that run on each GPU. What `nvidia-smi` prints is an argument,
-- none where it cannot be run.
pub mod Poll
use Prim.Native.Nat.{ℕ}
use Prim.Native.String.{String, ◌++◌}
use opendps.Prelude.{Bool, true, false, List, [], ◌∷◌}
use opendps.Json.{ℤ, pos, negsuc}
use opendps.Text.{number_text}
use opendps.Dict.{Dict, nat_key, get_or, set}

-- A process id is -1 for a job that is set by hand.
pub record GpuJob : Type 0 where
  pub pid : ℤ
  pub gpu_uuid : String
  pub gpu_index : ℕ
  pub used_memory_mib : ℤ

pub record JobTracker : Type 0 where
  pub jobs : Dict ℕ (List GpuJob)
  pub uuid_to_index : Dict String ℤ

-- `JobTracker()`
abbrev pub empty_tracker : JobTracker
empty_tracker = record { jobs = []; uuid_to_index = [] }

unfoldable pub get_jobs : JobTracker → ℕ → List GpuJob
get_jobs t gpu_index = get_or gpu_index [] t.jobs

-- `bool(jobs)`
unfoldable pub any_job : List GpuJob → Bool
any_job [] = false
any_job (job ∷ jobs) = true

unfoldable pub is_gpu_busy : JobTracker → ℕ → Bool
is_gpu_busy t gpu_index = any_job (get_jobs t gpu_index)

-- The job that stands for a busy GPU.
unfoldable pub sim_job : ℕ → List GpuJob
sim_job i =
    record {
      pid = negsuc 0;
      gpu_uuid = "sim-" ++ number_text i;
      gpu_index = i;
      used_memory_mib = pos 1;
    }
    ∷ []

unfoldable pub mark_busy : Dict ℕ (List GpuJob) → List ℕ → Dict ℕ (List GpuJob)
unfolding sim_job
mark_busy jobs [] = jobs
mark_busy jobs (i ∷ gpu_indices) = mark_busy (set i (sim_job i) jobs) gpu_indices

-- What was polled is replaced.
unfoldable pub set_busy_gpus : JobTracker → List ℕ → JobTracker
unfolding mark_busy
set_busy_gpus t gpu_indices = record t { jobs = mark_busy [] gpu_indices }
