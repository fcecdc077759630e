-- ===== src/Agent/JobTracker/Poll/Filed.antt =====
-- Where a poll files the jobs that it reads.
use Prim.Native.Nat.{ℕ}
use Prim.Native.String.{String}
use opendps.Prelude.{
  ◌≡◌, refl, ap, subst, inl, inr, Bool-cases, Option, none, some, List, [], ◌∷◌, ◌++◌,
}
use opendps.Json.{ℤ, pos, negsuc}
use opendps.Num.{All}
use opendps.Dict.{Dict, nat_key, string_key, get, get_or, or_default, All-set}
use opendps.Result.{Result, ok, raise}
use opendps.Agent.JobTracker.{GpuJob, JobTracker}
use opendps.Agent.JobTracker.Poll.{
  unless_raised, lines_of, read_job, file_at, file_job, poll_lines, poll,
}

-- A job under a GPU, with that index, which is the index of its UUID.
abbrev pub IsAt : Dict String ℤ → ℕ → GpuJob → Type 0
IsAt uuids gpu job = (job.gpu_index ≡ gpu) × (get job.gpu_uuid uuids ≡ some (pos gpu))

-- Every job is under its own GPU.
abbrev pub IsFiled : Dict String ℤ → Dict ℕ (List GpuJob) → Type 0
IsFiled uuids jobs = All (λ e. All (IsAt uuids e.0) e.1) jobs

All-append : (P : GpuJob → Type 0) (xs ys : List GpuJob) → All P xs → All P ys → All P (xs ++ ys)
All-append P [] ys h k = k
All-append P (x ∷ xs) ys (h, hs) k = (h, All-append P xs ys hs k)

or_default-pos : (o : Option ℤ) (i : ℕ) → or_default (negsuc 0) o ≡ pos i → o ≡ some (pos i)
unfolding or_default
or_default-pos none i h = cc
or_default-pos (some n) i h = ap some h

IsFiled-get_or :
    (uuids : Dict String ℤ) (i : ℕ) (jobs : Dict ℕ (List GpuJob))
    → IsFiled uuids jobs
    → All (IsAt uuids i) (get_or i [] jobs)
unfolding get_or get or_default
IsFiled-get_or uuids i [] h = tt
IsFiled-get_or uuids i ((j, js) ∷ jobs) (h, hs) = elim (Bool-cases (nat_key.beq j i)) [
  | inl t ↦ rw t (subst (λ k. All (IsAt uuids k) js) ((nat_key.beq_iff j i).0 t) h)
  | inr f ↦ rw f (IsFiled-get_or uuids i jobs hs)
]

file_at-IsFiled :
    (uuids : Dict String ℤ) (jobs : Dict ℕ (List GpuJob)) (pid : ℤ) (uuid : String) (mem n : ℤ)
    → get_or uuid (negsuc 0) uuids ≡ n
    → IsFiled uuids jobs
    → IsFiled uuids (file_at jobs pid uuid mem n)
unfolding file_at or_default get_or
file_at-IsFiled uuids jobs pid uuid mem (negsuc m) e h = h
file_at-IsFiled uuids jobs pid uuid mem (pos i) e h =
    All-set (λ e. All (IsAt uuids e.0) e.1) i _ jobs
      (All-append (IsAt uuids i) (get_or i [] jobs) _ (IsFiled-get_or uuids i jobs h)
        ((refl, or_default-pos (get uuid uuids) i e), tt))
      h

file_job-IsFiled :
    (uuids : Dict String ℤ) (jobs : Dict ℕ (List GpuJob)) (entry : Option (ℤ × (String × ℤ)))
    → IsFiled uuids jobs
    → IsFiled uuids (file_job uuids jobs entry)
unfolding file_job
file_job-IsFiled uuids jobs none h = h
file_job-IsFiled uuids jobs (some (pid, (uuid, mem))) h =
    file_at-IsFiled uuids jobs pid uuid mem _ refl h

-- What holds of what is kept and of what follows holds of the outcome.
unless_raised_holds :
    {A K : Type 0} (P : K → Type 0) (kept : K) (r : Result A) (rest : A → K)
    → P kept
    → ((a : A) → P (rest a))
    → P (unless_raised kept r rest)
unfolding unless_raised
unless_raised_holds P kept (raise e) rest h k = h
unless_raised_holds P kept (ok a) rest h k = k a

poll_lines-IsFiled :
    (uuids : Dict String ℤ) (jobs : Dict ℕ (List GpuJob)) (lines : List String)
    → IsFiled uuids jobs
    → IsFiled uuids (poll_lines uuids jobs lines)
unfolding poll_lines
poll_lines-IsFiled uuids jobs [] h = h
poll_lines-IsFiled uuids jobs (line ∷ lines) h =
    unless_raised_holds (IsFiled uuids) jobs (read_job line) _ h (λ entry.
      poll_lines-IsFiled uuids (file_job uuids jobs entry) lines
        (file_job-IsFiled uuids jobs entry h))

-- Whatever nvidia-smi prints, every job that a poll files is under its own index, which is the
-- index that the tracker has for the UUID of the job.
pub poll-IsFiled :
    (t : JobTracker) (output : Option String) → IsFiled t.uuid_to_index (poll t output)
unfolding poll
poll-IsFiled t none = tt
poll-IsFiled t (some stdout) = poll_lines-IsFiled t.uuid_to_index [] (lines_of stdout) tt
