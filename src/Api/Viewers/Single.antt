-- ===== src/Api/Viewers/Single.antt =====
-- How many viewers the handlers can bring to a stream.
use oxide_cast.Prelude.{
  ℕ, ◌≤◌, ◌≡◌, Option, none, some, List, [], ◌∷◌, String, arith, length, Option-cases, inl, inr,
}
use oxide_cast.Action.{Action, ◌>>=◌, require_some, gets, changes}
use oxide_cast.Action.Keeps.{
  Keeps, keeps_rules, changes-Keeps, gets-Keeps, require_some-Keeps, >>-Keeps, >>=-Keeps,
  >>=-require_some-Keeps,
}
use oxide_cast.HashMap.{nat_eq, string_eq, HashMap, get, insert, remove}
use oxide_cast.HashMap.Values.{AllValues, modify-AllValues, get-AllValues}
use oxide_cast.Net.{v4, octets, SocketAddr, socket_addr, socket_addr_eq}
use oxide_cast.Auth.{AuthenticatedUser}
use oxide_cast.Database.{Answers, Database, DbError}
use oxide_cast.StreamManager.State.{
  Crates, Calls, ActiveStreamInfo, ViewerTracking, ViewerSession, ViewerInfo, ConnectionType,
  StreamError, StreamManager, stream_not_found, bad_address,
}
use oxide_cast.StreamManager.Tables.{Property, OnTables, table_rules}
use oxide_cast.StreamManager.Viewers.{
  join, leave, track, tracked_count, show_count, store_count, update_viewer_count, retrack, admit,
  add_viewer, remove_found, remove_viewer,
}
use oxide_cast.Api.Streams.{ApiError, on_database, on_manager, attempt, find_stream}
use oxide_cast.Api.Viewers.{
  JoinStreamRequest, viewer_addr, viewer_of, url_for, join_stream, leave_stream,
}

module _ {Float : Type 0} where
  -- No viewer, or one at the address that the handlers use.
  pub data IsSingle : HashMap SocketAddr (ViewerSession Float) → Type 0 where
    nobody : IsSingle []
    alone : (v : ViewerSession Float) → IsSingle ((viewer_addr, v) ∷ [])

  length-IsSingle : (m : HashMap SocketAddr (ViewerSession Float)) → IsSingle m → length m ≤ 1
  length-IsSingle _ nobody = omega arith
  length-IsSingle _ (alone v) = omega arith

  insert-IsSingle :
      (v : ViewerSession Float) (m : HashMap SocketAddr (ViewerSession Float))
      → IsSingle m
      → IsSingle (insert viewer_addr v m)
  unfolding insert
  insert-IsSingle v _ nobody = alone v
  insert-IsSingle v _ (alone w) = alone v

  remove-IsSingle :
      (m : HashMap SocketAddr (ViewerSession Float)) → IsSingle m → IsSingle (remove viewer_addr m)
  unfolding remove
  remove-IsSingle _ nobody = nobody
  remove-IsSingle _ (alone w) = nobody

  abbrev HasSingle : ViewerTracking Float → Type 0
  HasSingle t = IsSingle t.viewers

  abbrev pub Empty : ViewerTracking Float → Type 0
  Empty t = t.viewers ≡ []

  Empty-Singles :
      (tracking : HashMap ℕ (ViewerTracking Float))
      → AllValues Empty tracking
      → AllValues HasSingle tracking
  Empty-Singles [] e = tt
  Empty-Singles ((id, t) ∷ m) e = (rw (e.0) nobody, Empty-Singles m e.1)

  join-Single :
      (v : ViewerSession Float) (t : ViewerTracking Float)
      → HasSingle t
      → HasSingle (join viewer_addr v t)
  join-Single v t h = insert-IsSingle v t.viewers h

  leave-Single : (t : ViewerTracking Float) → HasSingle t → HasSingle (leave viewer_addr t)
  leave-Single t h = remove-IsSingle t.viewers h

  abbrev Singles : Property Float
  Singles active tracking = AllValues HasSingle tracking

module _ {X : Crates} where
  abbrev Single : StreamManager X → Type 0
  Single = OnTables Singles

  track-Single :
      (id : ℕ) (change : ViewerTracking X.hls_types.Float → ViewerTracking X.hls_types.Float)
      → ((t : ViewerTracking X.hls_types.Float) → HasSingle t → HasSingle (change t))
      → (s : StreamManager X) → Single s
      → Single (track id change s)
  track-Single id change k s h = record {
    holds = modify-AllValues HasSingle id change s.viewer_tracking k h.holds;
  }

  show_count-Single : (id n : ℕ) (s : StreamManager X) → Single s → Single (show_count id n s)
  show_count-Single id n s h = record { holds = h.holds }

  store_count-Single : (calls : Calls X) (now id n : ℕ) → Keeps Single (store_count calls now id n)
  unfolding store_count
  store_count-Single calls now id n = search table_rules

  update_viewer_count-Single :
      (calls : Calls X) (now id : ℕ) → Keeps Single (update_viewer_count calls now id)
  unfolding update_viewer_count
  update_viewer_count-Single calls now id =
      search (table_rules, show_count-Single, store_count-Single)

  retrack-Single :
      (calls : Calls X) (now id : ℕ)
      (change : ViewerTracking X.hls_types.Float → ViewerTracking X.hls_types.Float)
      → ((t : ViewerTracking X.hls_types.Float) → HasSingle t → HasSingle (change t))
      → Keeps Single (retrack calls now id change)
  unfolding retrack
  retrack-Single calls now id change k =
      >>-Keeps (changes (track id change)) (update_viewer_count calls now id)
        (changes-Keeps (track id change) (track-Single id change k))
        (update_viewer_count-Single calls now id)

  admit-Single :
      (calls : Calls X) (fresh_id now id : ℕ) (viewer : ViewerInfo)
      (info : ActiveStreamInfo X.hls_types.Float)
      → Keeps Single (admit calls fresh_id now id viewer info viewer_addr)
  unfolding admit
  admit-Single calls fresh_id now id viewer info =
      search (table_rules, retrack-Single, join-Single) depth 20

  add_viewer-Single :
      (calls : Calls X) (fresh_id now id : ℕ) (viewer : ViewerInfo)
      → calls.parse_ip viewer.ip_address ≡ some (v4 (octets 127 0 0 1))
      → Keeps Single (add_viewer calls fresh_id now id viewer)
  unfolding add_viewer
  add_viewer-Single calls fresh_id now id viewer local =
      >>=-Keeps (gets (λ s. get id s.active_streams)) _ (gets-Keeps (λ s. get id s.active_streams))
        λ found.
          >>=-Keeps (require_some found stream_not_found)
            (λ info. require_some (calls.parse_ip viewer.ip_address) bad_address >>= λ ip.
              admit calls fresh_id now id viewer info (socket_addr ip 8000))
            (require_some-Keeps found stream_not_found)
            λ info.
              >>=-require_some-Keeps (calls.parse_ip viewer.ip_address) bad_address
                (λ ip. admit calls fresh_id now id viewer info (socket_addr ip 8000))
                λ ip e.
                  let here : ip ≡ v4 (octets 127 0 0 1) = ground (arith, e, local) in
                  rw here (admit-Single calls fresh_id now id viewer info)

  remove_found-Single :
      (calls : Calls X) (now id : ℕ) (found : Option (ActiveStreamInfo X.hls_types.Float))
      → Keeps Single (remove_found calls now id viewer_addr found)
  remove_found-Single calls now id none = search table_rules
  remove_found-Single calls now id (some info) = search (table_rules, retrack-Single, leave-Single)

  remove_viewer-Single :
      (calls : Calls X) (now id : ℕ) → Keeps Single (remove_viewer calls now id viewer_addr)
  unfolding remove_viewer
  remove_viewer-Single calls now id = search (table_rules, remove_found-Single)

module _ {X : Crates} {A : Type 0} where
  on_database-Single :
      (m : Action DbError (Database X.Json) A) → Keeps Single (on_database {X = X} m)
  on_database-Single m = record { after = λ s h. record { holds = h.holds } }

  on_manager-Single :
      (m : Action StreamError (StreamManager X) A) → Keeps Single m → Keeps Single (on_manager m)
  on_manager-Single m k = record { after = k.after }

  attempt-Single :
      (m : Action StreamError (StreamManager X) A) → Keeps Single m → Keeps Single (attempt m)
  attempt-Single m k = record { after = k.after }

module _ {X : Crates} where
  find_stream-Single :
      (calls : Calls X) (id : ℕ) (e : ApiError) → Keeps Single (find_stream calls id e)
  unfolding find_stream
  find_stream-Single calls id e = search (keeps_rules, on_database-Single)

  url_for-Single :
      (calls : Calls X) (id : ℕ) (kind : ConnectionType) → Keeps Single (url_for calls id kind)
  url_for-Single calls id kind = record { after = λ s h. h }

  join_stream-Single :
      (to_lowercase : String → String) (calls : Calls X) (info_id fresh_id now id : ℕ)
      (user : Option AuthenticatedUser) (request : JoinStreamRequest)
      → calls.parse_ip "127.0.0.1" ≡ some (v4 (octets 127 0 0 1))
      → Keeps Single (join_stream to_lowercase calls info_id fresh_id now user id request)
  unfolding join_stream
  join_stream-Single to_lowercase calls info_id fresh_id now id user request local =
      let added : (kind : ConnectionType)
          → Keeps Single
              (add_viewer calls fresh_id now id (viewer_of info_id now user kind request)) =
        λ kind.
          add_viewer-Single calls fresh_id now id (viewer_of info_id now user kind request) local in
      search (keeps_rules, find_stream-Single, url_for-Single, on_manager-Single, added) depth 20

  leave_stream-Single : (calls : Calls X) (now id : ℕ) → Keeps Single (leave_stream calls now id)
  unfolding leave_stream
  leave_stream-Single calls now id =
      search (keeps_rules, find_stream-Single, attempt-Single, remove_viewer-Single)

-- A request to join or to leave a stream, with what the database answers.
pub data Visit : Type 0 where
  joins : Answers → ℕ → ℕ → ℕ → Option AuthenticatedUser → ℕ → JoinStreamRequest → Visit
  leaves : Answers → ℕ → ℕ → Visit

module _ {X : Crates} where
  abbrev pub visit : (String → String) → Calls X → Visit → StreamManager X → StreamManager X
  visit to_lowercase calls (joins answers info_id fresh_id now user id request) s =
      (join_stream to_lowercase (record calls { answers = answers }) info_id fresh_id now user id
        request s).1
  visit to_lowercase calls (leaves answers now id) s =
      (leave_stream (record calls { answers = answers }) now id s).1

  unfoldable pub visits :
      (String → String) → Calls X → List Visit → StreamManager X → StreamManager X
  visits to_lowercase calls [] s = s
  visits to_lowercase calls (v ∷ vs) s = visits to_lowercase calls vs (visit to_lowercase calls v s)

  visits-Single :
      (to_lowercase : String → String) (calls : Calls X) (vs : List Visit) (s : StreamManager X)
      → calls.parse_ip "127.0.0.1" ≡ some (v4 (octets 127 0 0 1))
      → Single s
      → Single (visits to_lowercase calls vs s)
  unfolding visits
  visits-Single to_lowercase calls [] s local h = h
  visits-Single to_lowercase calls (joins answers info_id fresh_id now user id request ∷ vs) s local
        h =
      visits-Single to_lowercase calls vs _ local (
        (join_stream-Single to_lowercase (record calls { answers = answers }) info_id fresh_id now
            id user request local).after
          s h)
  visits-Single to_lowercase calls (leaves answers now id ∷ vs) s local h =
      visits-Single to_lowercase calls vs _ local
        ((leave_stream-Single (record calls { answers = answers }) now id).after s h)

  -- When `parse` reads "127.0.0.1" as that address, and at first no viewer of any stream is tracked:
  -- however often the handlers are then asked to join and to leave streams, and whatever the database
  -- answers, no stream ever has more than one viewer tracked.
  pub tracked_count-visits :
      (to_lowercase : String → String) (calls : Calls X) (vs : List Visit) (s : StreamManager X)
      (id : ℕ)
      → calls.parse_ip "127.0.0.1" ≡ some (v4 (octets 127 0 0 1))
      → AllValues Empty s.viewer_tracking
      → tracked_count id (visits to_lowercase calls vs s) ≤ 1
  tracked_count-visits to_lowercase calls vs s id local empty =
      let start : Single s = record { holds = Empty-Singles s.viewer_tracking empty } in
      let end = (visits-Single to_lowercase calls vs s local start).holds in
      let s' = visits to_lowercase calls vs s in
      elim (Option-cases (get id s'.viewer_tracking)) [
        | inl gone ↦ rw gone (omega arith)
        | inr (t', found) ↦ rw found (
            length-IsSingle t'.viewers (get-AllValues HasSingle id t' s'.viewer_tracking end found))
      ]
