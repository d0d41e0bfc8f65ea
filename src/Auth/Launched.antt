-- ===== src/Auth/Launched.antt =====
-- The guards of the users in the program that src/main.rs launches.
use oxide_cast.Prelude.{ℕ, ◌≡◌, refl, Option, String, List, [], ◌∷◌, err}
use mathlib.Core.List.{Mem, not-mem-nil, mem_of_ne_of_mem}
use oxide_cast.Auth.{
  TokenOps, Outcome, error, internal_server_error, AuthError, StateType, arc_app_state, managed,
  launched_guards, from_request, admin_from_request, streamer_from_request,
}

-- What Rocket documents of the guard of a state: it fails with the status 500 for a type of which no
-- value is managed.
abbrev pub Documented : (List StateType → StateType → Outcome TokenOps) → Type 0
Documented state_guard =
    (types : List StateType) (t : StateType)
    → ¬ Mem t types
    → (e : AuthError) × (state_guard types t ≡ err (error internal_server_error e))

unmanaged : ¬ Mem arc_app_state managed
unmanaged there = not-mem-nil (mem_of_ne_of_mem (λ p. cc) (mem_of_ne_of_mem (λ p. cc) there))

-- In the program as it is launched, when the guard of a state does what Rocket documents: whatever
-- token a request carries, the guards of the users, of the admins and of the streamers all fail with
-- the status 500, since `main` manages an `AppState` and they ask for an `Arc<AppState>`.
pub launched_guards_fail :
    (state_guard : List StateType → StateType → Outcome TokenOps) (now : ℕ) (header : Option String)
    → Documented state_guard
    → (e : AuthError) × (launched_guards state_guard now header
        ≡ err (error internal_server_error e)
          ∷ err (error internal_server_error e)
          ∷ err (error internal_server_error e)
          ∷ [])
unfolding launched_guards from_request admin_from_request streamer_from_request
launched_guards_fail state_guard now header documented =
    let (e, failed) = documented managed arc_app_state unmanaged in
    (e, rw (failed, launched_guards) refl)
