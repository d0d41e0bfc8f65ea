-- ===== src/Transcoder/Manager.antt =====
-- `TranscoderManager` of src/transcoder.rs: the table of jobs, the permits of the semaphore, and the
-- spawned tasks, each by how far its `run_transcoding_job` has come. A step of a task that is not at
-- that point changes nothing.
pub mod Steps
pub mod Permits
pub mod Orphans
pub mod Stops
use oxide_cast.Prelude.{
  ℕ, zero, suc, ◌+◌, ◌-◌, Bool, true, false, ◌&&◌, Option, none, some, List, [], ◌∷◌, String,
  length, leb, ◌==◌, get_elem?, if◌then◌else◌, Result, ok, err,
}
use oxide_cast.HashMap.{nat_eq, string_eq, HashMap, get, contains_key, insert, remove, modify}
use oxide_cast.Transcoder.Job.{
  JobStatus, starting, completed, failed, cancelled, TranscodingRequest, TranscodingJob,
  TranscodingProgress, new_job, set_status, set_process, set_progress,
}

-- A task waits for a permit, builds its command and starts FFmpeg, waits in `select!`, is about to
-- clean up, or has returned.
pub data Phase : Type 0 where
  waits prepares : Phase
  watches : ℕ → Phase
  cleans ends : Phase

-- The job of the task, and its phase.
pub data Task : Type 0 where
  task : ℕ → Phase → Task

pub data TranscoderError : Type 0 where
  unknown_profile job_not_found : TranscoderError

-- How `select!` ends: FFmpeg exits, well or not (an error of `wait` counts as not), or the progress
-- monitor or the feeder returns.
pub data Outcome : Type 0 where
  succeeds fails monitor_ends feeder_ends : Outcome

-- `processes` are the FFmpeg processes that run.
pub record TranscoderManager (Profile Float PathBuf : Type 0) : Type 0 where
  pub profiles_map : HashMap String Profile
  pub active_jobs : HashMap ℕ (TranscodingJob Float PathBuf)
  pub permits : ℕ
  pub tasks : List Task
  pub processes : List ℕ

abbrev pub set_phase : ℕ → Phase → List Task → List Task
set_phase i phase [] = []
set_phase zero phase (task id _ ∷ tasks) = task id phase ∷ tasks
set_phase (suc i) phase (t ∷ tasks) = t ∷ set_phase i phase tasks

-- The process that has exited.
abbrev pub reap : ℕ → List ℕ → List ℕ
reap pid [] = []
reap pid (p ∷ ps) = let rest = reap pid ps in if p == pid then rest else p ∷ rest

abbrev pub all_known : {Profile : Type 0} → List String → HashMap String Profile → Bool
all_known [] profiles = true
all_known (name ∷ names) profiles = contains_key name profiles && all_known names profiles

module _ {Profile Float PathBuf : Type 0} where
  abbrev pub new : HashMap String Profile → ℕ → TranscoderManager Profile Float PathBuf
  new profiles max_concurrent = record {
    profiles_map = profiles;
    active_jobs = [];
    permits = max_concurrent;
    tasks = [];
    processes = [];
  }

  unfoldable pub start_transcoding :
      Float
      → ℕ
      → ℕ
      → TranscodingRequest PathBuf
      → TranscoderManager Profile Float PathBuf
      → Result TranscoderError ℕ × TranscoderManager Profile Float PathBuf
  start_transcoding zero_f32 job_id now request m =
      if all_known request.profiles m.profiles_map
      then (
        ok job_id,
        record m {
          active_jobs = insert job_id (new_job zero_f32 job_id now request) m.active_jobs;
          tasks = task job_id waits ∷ m.tasks;
        },
      )
      else (err unknown_profile, m)

  unfoldable pub update_job_status :
      ℕ
      → JobStatus
      → TranscoderManager Profile Float PathBuf
      → TranscoderManager Profile Float PathBuf
  update_job_status job_id status m = record m {
    active_jobs = modify job_id (set_status status) m.active_jobs;
  }

  unfoldable pub update_job_progress :
      ℕ
      → TranscodingProgress Float
      → TranscoderManager Profile Float PathBuf
      → TranscoderManager Profile Float PathBuf
  update_job_progress job_id progress m = record m {
    active_jobs = modify job_id (set_progress progress) m.active_jobs;
  }

  -- On success it gives the process that gets a SIGTERM.
  unfoldable pub stop_transcoding :
      ℕ
      → TranscoderManager Profile Float PathBuf
      → Result TranscoderError (Option ℕ) × TranscoderManager Profile Float PathBuf
  stop_transcoding job_id m = elim (get job_id m.active_jobs) [
    | none ↦ (err job_not_found, m)
    | some job ↦ (ok job.child_process, update_job_status job_id cancelled m)
  ]

  abbrev pub acquire_for :
      ℕ
      → Option Task
      → TranscoderManager Profile Float PathBuf
      → TranscoderManager Profile Float PathBuf
  acquire_for i (some (task id waits)) m =
      if leb 1 m.permits
      then update_job_status id starting
          (record m { permits = m.permits - 1; tasks = set_phase i prepares m.tasks })
      else m
  acquire_for i _ m = m

  -- `self.job_semaphore.acquire()`, when there is a permit.
  unfoldable pub acquire :
      ℕ → TranscoderManager Profile Float PathBuf → TranscoderManager Profile Float PathBuf
  acquire i m = acquire_for i (get_elem? m.tasks i) m

  -- From the command to the process id: `none` is an error on the way, after which the task drops its
  -- permit and the job is `failed`.
  abbrev pub launch_for :
      ℕ
      → Option ℕ
      → Option Task
      → TranscoderManager Profile Float PathBuf
      → TranscoderManager Profile Float PathBuf
  launch_for i none (some (task id prepares)) m =
      update_job_status id failed
        (record m { permits = m.permits + 1; tasks = set_phase i ends m.tasks })
  launch_for i (some pid) (some (task id prepares)) m = record m {
    active_jobs = modify id (set_process pid) m.active_jobs;
    tasks = set_phase i (watches pid) m.tasks;
    processes = pid ∷ m.processes;
  }
  launch_for i _ _ m = m

  unfoldable pub launch :
      ℕ
      → Option ℕ
      → TranscoderManager Profile Float PathBuf
      → TranscoderManager Profile Float PathBuf
  launch i pid m = launch_for i pid (get_elem? m.tasks i) m

  -- The arms of `select!`; those of the monitor and the feeder leave job and process alone.
  abbrev pub on_outcome :
      ℕ
      → ℕ
      → Outcome
      → TranscoderManager Profile Float PathBuf
      → TranscoderManager Profile Float PathBuf
  on_outcome id pid succeeds m =
      update_job_status id completed (record m { processes = reap pid m.processes })
  on_outcome id pid fails m =
      update_job_status id failed (record m { processes = reap pid m.processes })
  on_outcome id pid _ m = m

  abbrev pub select_for :
      ℕ
      → Outcome
      → Option Task
      → TranscoderManager Profile Float PathBuf
      → TranscoderManager Profile Float PathBuf
  select_for i outcome (some (task id (watches pid))) m =
      on_outcome id pid outcome (record m { tasks = set_phase i cleans m.tasks })
  select_for i outcome _ m = m

  unfoldable pub select :
      ℕ
      → Outcome
      → TranscoderManager Profile Float PathBuf
      → TranscoderManager Profile Float PathBuf
  select i outcome m = select_for i outcome (get_elem? m.tasks i) m

  abbrev pub cleanup_for :
      ℕ
      → Option Task
      → TranscoderManager Profile Float PathBuf
      → TranscoderManager Profile Float PathBuf
  cleanup_for i (some (task id cleans)) m = record m {
    active_jobs = remove id m.active_jobs;
    permits = m.permits + 1;
    tasks = set_phase i ends m.tasks;
  }
  cleanup_for i _ m = m

  -- `cleanup_job`, and the return of the task, which drops the permit.
  unfoldable pub cleanup_job :
      ℕ → TranscoderManager Profile Float PathBuf → TranscoderManager Profile Float PathBuf
  cleanup_job i m = cleanup_for i (get_elem? m.tasks i) m

  -- A process that nobody waits for comes to its end.
  unfoldable pub exit :
      ℕ → TranscoderManager Profile Float PathBuf → TranscoderManager Profile Float PathBuf
  exit pid m = record m { processes = reap pid m.processes }
