-- ===== src/StreamManager/Counted/History.antt =====
-- Histories of the stream manager: any sequence of its calls and of the ticks of its health monitor,
-- with any answers of the database and of its components.
use oxide_cast.Prelude.{
  ℕ, ◌≡◌, Option, none, some, List, [], ◌∷◌, String, arith, inl, inr, Option-cases,
}
use oxide_cast.Action.Keeps.{Keeps}
use oxide_cast.HashMap.{nat_eq, string_eq, get}
use oxide_cast.HashMap.Laws.{get-insert, get-remove, get-modify, beq_refl}
use oxide_cast.Net.{SocketAddr}
use oxide_cast.Database.{Stream, Answers}
use oxide_cast.Multicast.Packet.{PayloadType}
use oxide_cast.StreamManager.State.{
  Crates, Calls, ActiveStreamInfo, ViewerInfo, StreamSessionInfo, StreamManager,
}
use oxide_cast.StreamManager.Streams.{FreshIds, new_tracking, enter, start_row, start_stream}
use oxide_cast.StreamManager.Stop.{
  take_off, untrack, save_of, finalize_stream_session, stop_job, stop_active, stop_found,
  stop_stream,
}
use oxide_cast.StreamManager.Media.{
  get_next_sequence_number, update_stream_metrics, see_frame, see_stream, send_media, send_found,
  handle_media_data,
}
use oxide_cast.StreamManager.Viewers.{add_viewer, remove_viewer, stream_health_monitor}
use oxide_cast.StreamManager.Tables.{Property, OnTables, table_rules}
use oxide_cast.StreamManager.Counted.{IsCounted, Counted, add_viewer-Counted, remove_viewer-Counted}

module _ {Float : Type 0} where
  -- Besides, one stream is not on air.
  abbrev IsOffAir : ℕ → Property Float
  IsOffAir off active tracking = IsCounted active tracking × (get off active ≡ none)

module _ {X : Crates} where
  enter-Counted :
      (id session_id now : ℕ) (info : ActiveStreamInfo X.hls_types.Float)
      → info.viewer_count ≡ 0
      → (s : StreamManager X) → Counted s
      → Counted (enter id session_id now info s)
  enter-Counted id session_id now info zeroed s h = record {
    holds = λ j found e. ground (
      arith,
      zeroed,
      get-insert id j info s.active_streams,
      get-insert id j (new_tracking id) s.viewer_tracking,
      h.holds j found,
    );
  }

  start_row-Counted :
      (calls : Calls X) (ids : FreshIds) (now id : ℕ) (stream : Stream)
      → Keeps Counted (start_row calls ids now id stream)
  unfolding start_row
  start_row-Counted calls ids now id stream = search (table_rules, enter-Counted) depth 30

  start_stream-Counted :
      (calls : Calls X) (ids : FreshIds) (now id : ℕ)
      → Keeps Counted (start_stream calls ids now id)
  unfolding start_stream
  start_stream-Counted calls ids now id = search (table_rules, start_row-Counted)

  see_stream-Counted :
      (id now : ℕ) (s : StreamManager X) → Counted s → Counted (see_stream id now s)
  see_stream-Counted id now s h = record {
    holds = λ j info e.
        let change = get-modify id j (see_frame now) s.active_streams in
        elim (Option-cases (get j s.active_streams)) [
          | inl gone ↦ absurd (ground (arith, change, gone))
          | inr (old, there) ↦ ground (arith, change, there, h.holds j old there)
        ];
  }

  update_stream_metrics-Counted :
      (id bytes : ℕ) (s : StreamManager X) → Counted s → Counted (update_stream_metrics id bytes s)
  unfolding update_stream_metrics
  update_stream_metrics-Counted id bytes s h = record { holds = h.holds }

  get_next_sequence_number-Counted : Keeps {S = StreamManager X} Counted get_next_sequence_number
  unfolding get_next_sequence_number
  get_next_sequence_number-Counted = record { after = λ s h. record { holds = h.holds } }

  send_found-Counted :
      (calls : Calls X) (now : ℕ) (key : String) (bytes : List ℕ) (kind : PayloadType)
      (found : Option (ActiveStreamInfo X.hls_types.Float))
      → Keeps Counted (send_found calls now key bytes kind found)
  unfolding send_media
  send_found-Counted calls now key bytes kind none = search table_rules
  send_found-Counted calls now key bytes kind (some info) =
      search
        (
          table_rules, get_next_sequence_number-Counted, see_stream-Counted,
          update_stream_metrics-Counted,
        )
        depth 20

  handle_media_data-Counted :
      (calls : Calls X) (now : ℕ) (key : String) (bytes : List ℕ) (kind : PayloadType)
      → Keeps Counted (handle_media_data calls now key bytes kind)
  unfolding handle_media_data
  handle_media_data-Counted calls now key bytes kind = search (table_rules, send_found-Counted)

  abbrev OffAir : ℕ → StreamManager X → Type 0
  OffAir id = OnTables (IsOffAir id)

  untrack-OffAir : (id : ℕ) (s : StreamManager X) → OffAir id s → OffAir id (untrack id s)
  untrack-OffAir id s h = record {
    holds = (
      λ j info e. ground (
        arith,
        get-remove id j s.viewer_tracking,
        h.holds.0 j info,
        h.holds.1,
        nat_eq.same_iff id j,
      ),
      h.holds.1,
    );
  }

  save_of-OffAir :
      (calls : Calls X) (now id : ℕ) (session : Option (StreamSessionInfo X.hls_types.Float))
      → Keeps (OffAir id) (save_of calls now id session)
  save_of-OffAir calls now id none = search table_rules
  save_of-OffAir calls now id (some session) = search table_rules

  finalize_stream_session-OffAir :
      (calls : Calls X) (now id : ℕ) → Keeps (OffAir id) (finalize_stream_session calls now id)
  unfolding finalize_stream_session
  finalize_stream_session-OffAir calls now id = search (table_rules, save_of-OffAir)

  stop_job-OffAir : (id : ℕ) (job : Option ℕ) → Keeps (OffAir id) (stop_job {X = X} job)
  stop_job-OffAir id none = search table_rules
  stop_job-OffAir id (some job_id) = search table_rules

  stop_found-OffAir :
      (calls : Calls X) (now id : ℕ) (found : Option (ActiveStreamInfo X.hls_types.Float))
      → Keeps (OffAir id) (stop_found calls now id found)
  unfolding stop_active
  stop_found-OffAir calls now id none = search table_rules
  stop_found-OffAir calls now id (some info) =
      search (table_rules, untrack-OffAir, finalize_stream_session-OffAir, stop_job-OffAir) depth 30

  stop_stream-Counted :
      (calls : Calls X) (now id : ℕ) (s : StreamManager X)
      → Counted s
      → Counted (stop_stream calls now id s).1
  unfolding stop_stream
  stop_stream-Counted calls now id s h =
      let off : OffAir id (take_off id s) = record {
        holds = (
          λ j info e. ground (arith, get-remove id j s.active_streams, h.holds j info),
          ground (arith, get-remove id id s.active_streams, beq_refl id),
        );
      } in
      record {
        holds =
            ((stop_found-OffAir calls now id (get id s.active_streams)).after (take_off id s)
              off).holds.0;
      }

pub data Event (X : Crates) : Type 0 where
  starts : Calls X → FreshIds → ℕ → ℕ → Event X
  stops : Calls X → ℕ → ℕ → Event X
  publishes : Calls X → ℕ → String → List ℕ → PayloadType → Event X
  joins : Calls X → ℕ → ℕ → ℕ → ViewerInfo → Event X
  leaves : Calls X → ℕ → ℕ → SocketAddr → Event X
  monitors : Answers → ℕ → Event X

module _ {X : Crates} where
  unfoldable pub step : Event X → StreamManager X → StreamManager X
  step (starts calls ids now id) s = (start_stream calls ids now id s).1
  step (stops calls now id) s = (stop_stream calls now id s).1
  step (publishes calls now key bytes kind) s = (handle_media_data calls now key bytes kind s).1
  step (joins calls fresh_id now id viewer) s = (add_viewer calls fresh_id now id viewer s).1
  step (leaves calls now id addr) s = (remove_viewer calls now id addr s).1
  step (monitors answers now) s = stream_health_monitor answers now s

  unfoldable pub run : List (Event X) → StreamManager X → StreamManager X
  run [] s = s
  run (e ∷ es) s = run es (step e s)

  step-Counted : (e : Event X) (s : StreamManager X) → Counted s → Counted (step e s)
  unfolding step stream_health_monitor
  step-Counted (starts calls ids now id) s h = (start_stream-Counted calls ids now id).after s h
  step-Counted (stops calls now id) s h = stop_stream-Counted calls now id s h
  step-Counted (publishes calls now key bytes kind) s h =
      (handle_media_data-Counted calls now key bytes kind).after s h
  step-Counted (joins calls fresh_id now id viewer) s h =
      (add_viewer-Counted calls fresh_id now id viewer).after s h
  step-Counted (leaves calls now id addr) s h = (remove_viewer-Counted calls now id addr).after s h
  step-Counted (monitors answers now) s h = record { holds = h.holds }

  run-Counted : (es : List (Event X)) (s : StreamManager X) → Counted s → Counted (run es s)
  unfolding run
  run-Counted [] s h = h
  run-Counted (e ∷ es) s h = run-Counted es (step e s) (step-Counted e s h)

  -- After any sequence of starts, stops, media messages, joins, leaves and ticks of the health
  -- monitor, each of which may fail anywhere, from a manager with no stream on air, the viewer count
  -- of each stream on air is the number of the viewers that are tracked for it.
  pub run-IsCounted :
      (es : List (Event X)) (s : StreamManager X)
      → s.active_streams ≡ []
      → let s' = run es s in IsCounted s'.active_streams s'.viewer_tracking
  unfolding get
  run-IsCounted es s idle =
      (run-Counted es s (record { holds = λ id info e. absurd (ground arith) })).holds
