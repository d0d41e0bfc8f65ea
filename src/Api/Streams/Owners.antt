-- ===== src/Api/Streams/Owners.antt =====
-- Who may change a stream.
use oxide_cast.Prelude.{ℕ, ◌≡◌, refl, false, some, err, ◌==◌, inl, inr, Bool-cases, if◌then◌else◌}
use oxide_cast.Action.{◌>>=◌, pure}
use oxide_cast.HashMap.{nat_eq, get}
use oxide_cast.Auth.{AuthenticatedUser}
use oxide_cast.Database.{Stream, Statement}
use oxide_cast.Database.Streams.{find_by_id}
use oxide_cast.StreamManager.State.{Crates, Calls, StreamManager}
use oxide_cast.StreamManager.Streams.{FreshIds}
use oxide_cast.Api.Streams.{
  TextOps, UpdateStreamRequestApi, ApiError, forbidden, internal_server_error, Handler, find_stream,
  find_own, update_stream, delete_stream_handler, start_stream, stop_stream,
}

-- A request that changes the stream with an id.
pub data Request : Type 0 where
  updates : UpdateStreamRequestApi → Request
  deletes : Request
  starts : FreshIds → Request
  stops : Request

module _ {X : Crates} where
  unfoldable pub handle :
      TextOps → Calls X → ℕ → AuthenticatedUser → ℕ → Request → Handler X (Unit {0})
  handle ops calls now user stream_id (updates request) =
      update_stream ops calls now user stream_id request >>= λ a. pure tt
  handle ops calls now user stream_id deletes = delete_stream_handler calls now user stream_id
  handle ops calls now user stream_id (starts ids) =
      start_stream calls ids now user stream_id >>= λ a. pure tt
  handle ops calls now user stream_id stops = stop_stream calls now user stream_id >>= λ a. pure tt

  -- The error of a request on another's stream.
  abbrev pub refusal : Calls X → ApiError
  refusal calls = if calls.answers Statement.select_stream then forbidden else internal_server_error

  find_own-refusal :
      (calls : Calls X) (user : AuthenticatedUser) (stream : Stream) (id : ℕ) (s : StreamManager X)
      → get id s.database.streams ≡ some stream
      → (stream.user_id == user.id) ≡ false
      → find_own calls user id s ≡ (err (refusal calls), s)
  unfolding find_own find_stream find_by_id
  find_own-refusal calls user stream id s found other =
      elim (Bool-cases (calls.answers Statement.select_stream)) [
        | inl answered ↦
            rw (answered, find_own, find_by_id)
              (rw (found, find_own, find_by_id) (rw (other, find_own, find_by_id) refl))
        | inr failed ↦ rw (failed, find_own, find_by_id) refl
      ]

  -- A request to update, delete, start or stop a stream of another user fails and changes nothing,
  -- neither in the database nor in any component.
  pub handle-refusal :
      (ops : TextOps) (calls : Calls X) (now : ℕ) (user : AuthenticatedUser) (stream : Stream)
      (id : ℕ) (request : Request) (s : StreamManager X)
      → get id s.database.streams ≡ some stream
      → (stream.user_id == user.id) ≡ false
      → handle ops calls now user id request s ≡ (err (refusal calls), s)
  unfolding handle update_stream delete_stream_handler start_stream stop_stream
  handle-refusal ops calls now user stream id (updates request) s found other =
      rw (find_own-refusal calls user stream id s found other, handle, update_stream) refl
  handle-refusal ops calls now user stream id deletes s found other =
      rw (find_own-refusal calls user stream id s found other, handle, delete_stream_handler) refl
  handle-refusal ops calls now user stream id (starts ids) s found other =
      rw (find_own-refusal calls user stream id s found other, handle, start_stream) refl
  handle-refusal ops calls now user stream id stops s found other =
      rw (find_own-refusal calls user stream id s found other, handle, stop_stream) refl
