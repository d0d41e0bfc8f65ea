-- ===== src/Transcoder/Manager/Steps.antt =====
-- The transcoder as a state machine: the calls, the tasks and the processes of src/transcoder.rs, each
-- a step at a time, in any order.
use oxide_cast.Prelude.{ℕ, Option}
use oxide_cast.Transcoder.Job.{TranscodingRequest, TranscodingProgress}
use oxide_cast.Transcoder.Manager.{
  TranscoderManager, Outcome, start_transcoding, stop_transcoding, acquire, launch, select,
  cleanup_job, update_job_progress, exit,
}

module _ {Profile Float PathBuf : Type 0} where
  -- One step of a caller, of a task or of a process.
  pub data Step
      : TranscoderManager Profile Float PathBuf
        → TranscoderManager Profile Float PathBuf
        → Type 0 where
    starts :
        (zero_f32 : Float) (id now : ℕ) (request : TranscodingRequest PathBuf)
        (m : TranscoderManager Profile Float PathBuf)
        → Step m (start_transcoding zero_f32 id now request m).1
    stops :
        (id : ℕ) (m : TranscoderManager Profile Float PathBuf) → Step m (stop_transcoding id m).1
    acquires : (i : ℕ) (m : TranscoderManager Profile Float PathBuf) → Step m (acquire i m)
    launches :
        (i : ℕ) (pid : Option ℕ) (m : TranscoderManager Profile Float PathBuf)
        → Step m (launch i pid m)
    selects :
        (i : ℕ) (outcome : Outcome) (m : TranscoderManager Profile Float PathBuf)
        → Step m (select i outcome m)
    cleanups : (i : ℕ) (m : TranscoderManager Profile Float PathBuf) → Step m (cleanup_job i m)
    reports :
        (id : ℕ) (progress : TranscodingProgress Float)
        (m : TranscoderManager Profile Float PathBuf)
        → Step m (update_job_progress id progress m)
    exits : (pid : ℕ) (m : TranscoderManager Profile Float PathBuf) → Step m (exit pid m)

  -- The states that steps lead to.
  pub data Reachable (m : TranscoderManager Profile Float PathBuf)
      : TranscoderManager Profile Float PathBuf → Type 0 where
    here : Reachable m m
    after :
        {a b : TranscoderManager Profile Float PathBuf} → Reachable m a → Step a b → Reachable m b
