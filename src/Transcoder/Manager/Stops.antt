-- ===== src/Transcoder/Manager/Stops.antt =====
-- `stop_transcoding` on jobs in their several phases.
use oxide_cast.Prelude.{
  ℕ, zero, suc, List, [], ◌∷◌, ◌≤◌, ◌≡◌, refl, true, none, some, get_elem?, leb, arith, err,
}
use oxide_cast.HashMap.{nat_eq, string_eq, HashMap, get, remove, modify}
use oxide_cast.HashMap.Laws.{get-modify, get-remove, beq_refl}
use oxide_cast.Transcoder.Job.{TranscodingJob, cancelled, starting, set_status, set_process}
use oxide_cast.Transcoder.Manager.{
  TranscoderManager, Task, task, Phase, waits, prepares, cleans, set_phase, job_not_found,
  update_job_status, stop_transcoding, acquire, launch, cleanup_job,
}

get_elem?-set_phase :
    (i id : ℕ) (old new : Phase) (tasks : List Task)
    → get_elem? tasks i ≡ some (task id old)
    → get_elem? (set_phase i new tasks) i ≡ some (task id new)
get_elem?-set_phase i id old new [] e = cc
get_elem?-set_phase zero id old new (task j phase ∷ tasks) e = cc
get_elem?-set_phase (suc i) id old new (task j phase ∷ tasks) e =
    get_elem?-set_phase i id old new tasks e

module _ {Profile Float PathBuf : Type 0} where
  -- Once the task of a job has cleaned up, `stop_transcoding` fails on this job.
  pub stop-cleanup :
      (i id : ℕ) (m : TranscoderManager Profile Float PathBuf)
      → get_elem? m.tasks i ≡ some (task id cleans)
      → (stop_transcoding id (cleanup_job i m)).0 ≡ err job_not_found
  unfolding stop_transcoding cleanup_job
  stop-cleanup i id m e =
      let gone : get id (remove id m.active_jobs) ≡ none =
        ground (arith, get-remove id id m.active_jobs, beq_refl id) in
      rw (e, gone, stop_transcoding, cleanup_job) refl

  -- A job that is stopped before its task has a permit is `cancelled`, and yet the task starts
  -- FFmpeg for it when a permit is free: the job is `running` again.
  pub launch-stop :
      (i id pid : ℕ) (job : TranscodingJob Float PathBuf)
      (m : TranscoderManager Profile Float PathBuf)
      → get_elem? m.tasks i ≡ some (task id waits)
      → 1 ≤ m.permits
      → get id m.active_jobs ≡ some job
      → let stopped = (stop_transcoding id m).1 in
        let resumed = launch i (some pid) (acquire i stopped) in
        (get id stopped.active_jobs ≡ some (set_status cancelled job))
        × (get id resumed.active_jobs ≡ some (set_process pid job))
  unfolding stop_transcoding update_job_status acquire launch
  launch-stop i id pid job m e room found =
      let test : leb 1 m.permits ≡ true = ground arith in
      let moved = get_elem?-set_phase i id waits prepares m.tasks e in
      rw (found, stop_transcoding, e, acquire, test, launch, moved) (stopped, resumed)
    where
      jobs : HashMap ℕ (TranscodingJob Float PathBuf)
      jobs = m.active_jobs

      stopped : get id (modify id (set_status cancelled) jobs) ≡ some (set_status cancelled job)
      stopped = ground (arith, get-modify id id (set_status cancelled) jobs, beq_refl id)

      started :
          get id (modify id (set_status starting) (modify id (set_status cancelled) jobs))
          ≡ some (set_status starting job)
      started = ground (
        arith,
        get-modify id id (set_status starting) (modify id (set_status cancelled) jobs),
        beq_refl id,
        stopped,
      )

      resumed :
          get id (
            modify id
              (set_process pid)
              (modify id (set_status starting) (modify id (set_status cancelled) jobs)))
          ≡ some (set_process pid job)
      resumed = ground (
        arith,
        get-modify id id (set_process pid)
            (modify id (set_status starting) (modify id (set_status cancelled) jobs)),
        beq_refl id,
        started,
      )
