-- ===== src/Transcoder/Manager/Permits.antt =====
-- The permits of the semaphore and the tasks that hold one.
use oxide_cast.Prelude.{
  ℕ, zero, suc, ◌+◌, ◌≡◌, refl, Option, none, some, List, [], ◌∷◌, String, get_elem?, leb,
  Bool-cases, inl, inr, arith,
}
use oxide_cast.HashMap.{nat_eq, string_eq, HashMap}
use oxide_cast.Transcoder.Manager.{
  Phase, waits, prepares, watches, cleans, ends, Task, task, Outcome, succeeds, fails,
  TranscoderManager, new, set_phase, start_transcoding, update_job_status, stop_transcoding,
  acquire, acquire_for, launch, launch_for, select, select_for, cleanup_job, cleanup_for,
  update_job_progress, exit,
}
use oxide_cast.Transcoder.Manager.Steps.{
  Step, starts, stops, acquires, launches, selects, cleanups, reports, exits, Reachable, here,
  after,
}

-- Whether a task in this phase holds a permit.
abbrev pub held : Phase → ℕ
held waits = 0
held prepares = 1
held (watches pid) = 1
held cleans = 1
held ends = 0

abbrev pub holders : List Task → ℕ
holders [] = 0
holders (task id phase ∷ tasks) = held phase + holders tasks

holders-set_phase :
    (i id : ℕ) (old new : Phase) (tasks : List Task)
    → get_elem? tasks i ≡ some (task id old)
    → holders (set_phase i new tasks) + held old ≡ holders tasks + held new
holders-set_phase i id old new [] e = cc
holders-set_phase zero id old new (task j phase ∷ tasks) e =
    let phases : phase ≡ old = cc in rw phases (omega arith)
holders-set_phase (suc i) id old new (task j phase ∷ tasks) e =
    omega (arith, holders-set_phase i id old new tasks e)

module _ {Profile Float PathBuf : Type 0} where
  abbrev pub Balanced : ℕ → TranscoderManager Profile Float PathBuf → Type 0
  Balanced max m = m.permits + holders m.tasks ≡ max

  acquire-Balanced :
      (max i : ℕ) (m : TranscoderManager Profile Float PathBuf) (found : Option Task)
      → Balanced max m
      → get_elem? m.tasks i ≡ found
      → Balanced max (acquire_for i found m)
  unfolding update_job_status
  acquire-Balanced max i m (some (task id waits)) b e = elim (Bool-cases (leb 1 m.permits)) [
    | inl room ↦
        rw (room)
          (let moved = holders-set_phase i id waits prepares m.tasks e in ground (arith, moved))
    | inr full ↦ rw (full) b
  ]
  acquire-Balanced max i m _ b e = b

  launch-Balanced :
      (max i : ℕ) (pid : Option ℕ) (m : TranscoderManager Profile Float PathBuf)
      (found : Option Task)
      → Balanced max m
      → get_elem? m.tasks i ≡ found
      → Balanced max (launch_for i pid found m)
  unfolding update_job_status
  launch-Balanced max i none m (some (task id prepares)) b e =
      omega (arith, holders-set_phase i id prepares ends m.tasks e)
  launch-Balanced max i (some pid) m (some (task id prepares)) b e =
      omega (arith, holders-set_phase i id prepares (watches pid) m.tasks e)
  launch-Balanced max i _ m _ b e = b

  select-Balanced :
      (max i : ℕ) (outcome : Outcome) (m : TranscoderManager Profile Float PathBuf)
      (found : Option Task)
      → Balanced max m
      → get_elem? m.tasks i ≡ found
      → Balanced max (select_for i outcome found m)
  unfolding update_job_status
  select-Balanced max i succeeds m (some (task id (watches pid))) b e =
      omega (arith, holders-set_phase i id (watches pid) cleans m.tasks e)
  select-Balanced max i fails m (some (task id (watches pid))) b e =
      omega (arith, holders-set_phase i id (watches pid) cleans m.tasks e)
  select-Balanced max i _ m (some (task id (watches pid))) b e =
      omega (arith, holders-set_phase i id (watches pid) cleans m.tasks e)
  select-Balanced max i outcome m _ b e = b

  cleanup-Balanced :
      (max i : ℕ) (m : TranscoderManager Profile Float PathBuf) (found : Option Task)
      → Balanced max m
      → get_elem? m.tasks i ≡ found
      → Balanced max (cleanup_for i found m)
  cleanup-Balanced max i m (some (task id cleans)) b e =
      omega (arith, holders-set_phase i id cleans ends m.tasks e)
  cleanup-Balanced max i m _ b e = b

  -- Every step keeps the balance.
  Step-Balanced :
      (max : ℕ) (a b : TranscoderManager Profile Float PathBuf)
      → Step a b
      → Balanced max a
      → Balanced max b
  unfolding update_job_progress start_transcoding stop_transcoding update_job_status acquire launch
      select cleanup_job exit
  Step-Balanced max a _ (starts zero_f32 id now request _) h = ground (arith, h)
  Step-Balanced max a _ (stops id _) h = ground (arith, h)
  Step-Balanced max a _ (acquires i _) h = acquire-Balanced max i a (get_elem? a.tasks i) h refl
  Step-Balanced max a _ (launches i pid _) h =
      launch-Balanced max i pid a (get_elem? a.tasks i) h refl
  Step-Balanced max a _ (selects i outcome _) h =
      select-Balanced max i outcome a (get_elem? a.tasks i) h refl
  Step-Balanced max a _ (cleanups i _) h = cleanup-Balanced max i a (get_elem? a.tasks i) h refl
  Step-Balanced max a _ (reports id progress _) h = h
  Step-Balanced max a _ (exits pid _) h = h

  Reachable-Balanced :
      (max : ℕ) (a b : TranscoderManager Profile Float PathBuf)
      → Reachable a b
      → Balanced max a
      → Balanced max b
  Reachable-Balanced max a _ here h = h
  Reachable-Balanced max a b (after {a = c} r s) h =
      Step-Balanced max c b s (Reachable-Balanced max a c r h)

  -- In every state that steps lead to from a new manager, the free permits and the tasks that hold
  -- one are together `max_concurrent`: no permit is lost, and no more tasks than that run at once.
  pub Reachable-new-Balanced :
      (profiles : HashMap String Profile) (max_concurrent : ℕ)
      (m : TranscoderManager Profile Float PathBuf)
      → Reachable (new profiles max_concurrent) m
      → m.permits + holders m.tasks ≡ max_concurrent
  Reachable-new-Balanced profiles max_concurrent m r =
      Reachable-Balanced max_concurrent (new profiles max_concurrent) m r (omega arith)
