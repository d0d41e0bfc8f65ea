-- ===== src/Transcoder/Manager/Orphans.antt =====
-- FFmpeg processes whose task has returned.
use oxide_cast.Prelude.{
  ℕ, zero, suc, ◌≤◌, ◌≡◌, refl, true, some, [], ◌∷◌, String, length, leb, arith, ◌∙◌,
}
use oxide_cast.HashMap.{nat_eq, string_eq, HashMap}
use oxide_cast.Transcoder.Job.{TranscodingRequest}
use oxide_cast.Transcoder.Manager.{
  TranscoderManager, new, feeder_ends, start_transcoding, update_job_status, acquire, launch,
  select, cleanup_job,
}
use oxide_cast.Transcoder.Manager.Steps.{
  starts, acquires, launches, selects, cleanups, Reachable, here, after,
}

module _ {Profile Float PathBuf : Type 0} where
  -- A whole job: its feeder returns at once, before the process exits.
  abbrev pub one_job :
      Float
      → ℕ
      → ℕ
      → TranscodingRequest PathBuf
      → TranscoderManager Profile Float PathBuf
      → TranscoderManager Profile Float PathBuf
  one_job zero_f32 id pid request m = cleanup_job 0 (
      select 0 feeder_ends
        (launch 0 (some pid) (acquire 0 (start_transcoding zero_f32 id 0 request m).1)))

  one_job-Reachable :
      (zero_f32 : Float) (id pid : ℕ) (request : TranscodingRequest PathBuf)
      (a m : TranscoderManager Profile Float PathBuf)
      → Reachable a m
      → Reachable a (one_job zero_f32 id pid request m)
  one_job-Reachable zero_f32 id pid request a m r =
      after
        (after
          (after (after (after r (starts zero_f32 id 0 request m)) (acquires 0 _))
            (launches 0 (some pid) _))
          (selects 0 feeder_ends _))
        (cleanups 0 _)

  one_job_effect :
      (zero_f32 : Float) (id pid : ℕ) (request : TranscodingRequest PathBuf)
      (m : TranscoderManager Profile Float PathBuf)
      → request.profiles ≡ []
      → 1 ≤ m.permits
      → ((one_job zero_f32 id pid request m).permits ≡ m.permits)
        × ((one_job zero_f32 id pid request m).processes ≡ pid ∷ m.processes)
  unfolding start_transcoding acquire launch select cleanup_job update_job_status
  one_job_effect zero_f32 id pid request m none_asked room =
      let test : leb 1 m.permits ≡ true = ground arith in
      rw (none_asked, start_transcoding, acquire, test) (ground arith, refl)

  -- With room for one job or more, steps from a new manager lead to any number of FFmpeg processes
  -- that run at the same time, with all permits free: the permits do not bound the processes.
  pub orphans :
      (profiles : HashMap String Profile) (max_concurrent n : ℕ) (zero_f32 : Float)
      (request : TranscodingRequest PathBuf)
      → 1 ≤ max_concurrent
      → request.profiles ≡ []
      → (m : TranscoderManager Profile Float PathBuf) × Reachable (new profiles max_concurrent) m
        × (m.permits ≡ max_concurrent)
        × (length m.processes ≡ n)
  orphans profiles max_concurrent zero zero_f32 request room none_asked =
      (new profiles max_concurrent, here, refl, refl)
  orphans profiles max_concurrent (suc n) zero_f32 request room none_asked =
      let (m, r, free, many) = orphans profiles max_concurrent n zero_f32 request room none_asked in
      let effect = one_job_effect zero_f32 n n request m none_asked (omega arith) in
      (
        one_job zero_f32 n n request m,
        one_job-Reachable zero_f32 n n request (new profiles max_concurrent) m r,
        effect.0 ∙ free,
        rw (effect.1) (omega arith),
      )
