-- ===== src/Agent/JobTracker/Poll.antt =====
-- The polling of opendps/agent/job_tracker.py: `_refresh_uuid_map`, `_poll` and `_loop`. An exception
-- at a line ends the reading, and what was read before it is kept.
pub mod Filed
use Prim.Native.Nat.{ℕ}
use Prim.Native.String.{String}
use opendps.Prelude.{if◌then◌else◌, Option, none, some, List, [], ◌∷◌, ◌++◌}
use opendps.Json.{ℤ, pos, negsuc}
use opendps.Text.{is_blank, strip, split_on, split_once, splitlines}
use opendps.Text.Float.{to_int}
use opendps.Dict.{Dict, nat_key, string_key, get_or, set}
use opendps.Result.{Result, ok, raise, value_error, or_raise, ◌>>=◌}
use opendps.Agent.JobTracker.{GpuJob, JobTracker}

-- `out.stdout.strip().splitlines()`
unfoldable pub lines_of : String → List String
lines_of stdout = splitlines (strip stdout)

-- `idx_s, uuid = [p.strip() for p in line.split(",", 1)]`
unfoldable pub read_uuid : String → Result (String × ℤ)
read_uuid line = do
  parts ← or_raise value_error (split_once 44 line)
  index ← or_raise value_error (to_int (strip parts.0))
  ok (strip parts.1, index)

-- What is kept where a line raises, and what the loop does after it otherwise.
unfoldable pub unless_raised {ℓ} : {A : Type 0} {K : Type ℓ} → K → Result A → (A → K) → K
unless_raised kept (raise e) rest = kept
unless_raised kept (ok a) rest = rest a

unfoldable pub map_lines : Dict String ℤ → List String → Dict String ℤ
unfolding unless_raised read_uuid
map_lines uuids [] = uuids
map_lines uuids (line ∷ lines) =
    unless_raised uuids (read_uuid line) (λ entry. map_lines (set entry.0 entry.1 uuids) lines)

-- `_refresh_uuid_map`
unfoldable pub refresh_uuid_map : Option String → JobTracker → JobTracker
unfolding map_lines lines_of
refresh_uuid_map none t = t
refresh_uuid_map (some stdout) t = record t {
  uuid_to_index = map_lines t.uuid_to_index (lines_of stdout);
}

-- A line with its process, UUID and memory; none for one that is skipped.
unfoldable pub job_of_parts : List String → Result (Option (ℤ × (String × ℤ)))
job_of_parts (pid ∷ uuid ∷ mem ∷ more) = do
  pid ← or_raise value_error (to_int (strip pid))
  mem ← or_raise value_error (to_int (strip mem))
  ok (some (pid, (strip uuid, mem)))
job_of_parts parts = ok none

unfoldable pub read_job : String → Result (Option (ℤ × (String × ℤ)))
unfolding job_of_parts
read_job line = if is_blank line then ok none else job_of_parts (split_on 44 line)

-- The job under its GPU, unless the index is negative.
unfoldable pub file_at : Dict ℕ (List GpuJob) → ℤ → String → ℤ → ℤ → Dict ℕ (List GpuJob)
file_at jobs pid uuid mem (negsuc n) = jobs
file_at jobs pid uuid mem (pos i) =
    let job : GpuJob = record {
      pid = pid;
      gpu_uuid = uuid;
      gpu_index = i;
      used_memory_mib = mem;
    } in
    set i (get_or i [] jobs ++ (job ∷ [])) jobs

unfoldable pub file_job :
    Dict String ℤ → Dict ℕ (List GpuJob) → Option (ℤ × (String × ℤ)) → Dict ℕ (List GpuJob)
unfolding file_at
file_job uuids jobs none = jobs
file_job uuids jobs (some (pid, (uuid, mem))) =
    file_at jobs pid uuid mem (get_or uuid (negsuc 0) uuids)

unfoldable pub poll_lines :
    Dict String ℤ → Dict ℕ (List GpuJob) → List String → Dict ℕ (List GpuJob)
unfolding unless_raised read_job file_job
poll_lines uuids jobs [] = jobs
poll_lines uuids jobs (line ∷ lines) =
    unless_raised jobs (read_job line) (λ entry. poll_lines uuids (file_job uuids jobs entry) lines)

-- `_poll`
unfoldable pub poll : JobTracker → Option String → Dict ℕ (List GpuJob)
unfolding poll_lines lines_of
poll t none = []
poll t (some stdout) = poll_lines t.uuid_to_index [] (lines_of stdout)

-- `_loop`, for as many rounds as there are outputs.
unfoldable pub loop : List (Option String) → JobTracker → JobTracker
unfolding poll
loop [] t = t
loop (output ∷ outputs) t = loop outputs (record t { jobs = poll t output })

-- `start`, with the first output for the UUIDs and the others for the rounds.
unfoldable pub start : Option String → List (Option String) → JobTracker → JobTracker
unfolding refresh_uuid_map loop
start uuids outputs t = loop outputs (refresh_uuid_map uuids t)
