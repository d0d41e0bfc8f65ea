-- ===== src/StreamManager/Stop/Partial.antt =====
-- A stop that fails half way, and a session that is saved twice.
use oxide_cast.Prelude.{ℕ, ◌≡◌, refl, ap, ◌∙◌, true, false, none, some, Option, ok, err, arith}
use oxide_cast.Action.{map_err}
use oxide_cast.HashMap.{nat_eq, string_eq, get, contains_key, insert, remove, values}
use oxide_cast.HashMap.Laws.{
  get-insert, get-remove, beq_refl, remove_of_absent, contains_key-insert,
}
use oxide_cast.Database.{
  first_with, Stream, StreamSession, Statement, Database, query_failed, update_row, save_session,
}
use oxide_cast.Database.Streams.{find_by_id, stop_streaming, go_off}
use oxide_cast.Transcoder.Manager.{job_not_found, stop_transcoding}
use oxide_cast.StreamManager.State.{
  Crates, Calls, ActiveStreamInfo, StreamSessionInfo, of_transcoder, of_database, StreamManager,
}
use oxide_cast.StreamManager.Stop.{
  is_session_of, session_row, finalize_stream_session, stop_active, stop_stream,
}

-- An entry that is not there.
pub stop_stream-none :
    {X : Crates} (calls : Calls X) (now id : ℕ) (s : StreamManager X)
    → get id s.active_streams ≡ none
    → stop_stream calls now id s ≡ (ok tt, s)
unfolding stop_stream
stop_stream-none calls now id s free =
    rw (free, stop_stream)
      (ap (λ m. (ok tt, record s { active_streams = m }))
        (remove_of_absent id s.active_streams free))

abbrev pub get_row : {X : Crates} → ℕ → StreamManager X → Option (StreamSession X.Json)
get_row id s = get id s.database.stream_sessions

module _ {X : Crates} where
  -- What a stop leaves when the job of the stream has come to its end.
  abbrev pub half_stopped : ℕ → Stream → StreamManager X → StreamManager X
  half_stopped now stream s = record s {
    active_streams = remove stream.id s.active_streams;
    database = update_row now stream.id (go_off now) s.database;
  }

  abbrev pub with_row : StreamSession X.Json → StreamManager X → StreamManager X
  with_row row s = record s {
    database = record s.database { stream_sessions = insert row.id row s.database.stream_sessions };
  }

module _ {X : Crates} (calls : Calls X) (connected : (q : Statement) → calls.answers q ≡ true) where
  stop_stream-lost :
      (now job_id : ℕ) (stream : Stream) (info : ActiveStreamInfo X.hls_types.Float)
      (s : StreamManager X)
      → get stream.id s.active_streams ≡ some info
      → get stream.id s.database.streams ≡ some stream
      → info.transcoding_job_id ≡ some job_id
      → get job_id s.transcoder_manager.active_jobs ≡ none
      → stop_stream calls now stream.id s
        ≡ (err (of_transcoder job_not_found), half_stopped now stream s)
  unfolding stop_stream stop_active find_by_id stop_streaming stop_transcoding
  stop_stream-lost now job_id stream info s active found job gone =
      rw (active, stop_stream)
        (rw (connected Statement.select_stream, stop_active, find_by_id)
          (rw (found, stop_active, find_by_id)
            (rw (connected Statement.set_ended, stop_active, stop_streaming)
              (rw (job, stop_active) (rw (gone, stop_active, stop_transcoding) refl)))))

  -- When the database answers, and the transcoding job of a stream on air is no longer in the
  -- table, a stop fails, having only taken the entry out of the active streams and ended the
  -- row: the group, the HLS and WebRTC streams, the tracking and the session stay. A second stop
  -- then succeeds and changes nothing.
  pub stop_stream-twice :
      (now later job_id : ℕ) (stream : Stream) (info : ActiveStreamInfo X.hls_types.Float)
      (s : StreamManager X)
      → get stream.id s.active_streams ≡ some info
      → get stream.id s.database.streams ≡ some stream
      → info.transcoding_job_id ≡ some job_id
      → get job_id s.transcoder_manager.active_jobs ≡ none
      → let (r, s') = stop_stream calls now stream.id s in
        (r ≡ err (of_transcoder job_not_found))
        × (s' ≡ half_stopped now stream s)
        × (stop_stream calls later stream.id s' ≡ (ok tt, s'))
  stop_stream-twice now later job_id stream info s active found job gone =
      let run = stop_stream-lost now job_id stream info s active found job gone in
      (
        ap (λ r. r.0) run,
        ap (λ r. r.1) run,
        rw run (
            stop_stream-none calls later stream.id (half_stopped now stream s) (
              ground (arith, get-remove stream.id stream.id s.active_streams, beq_refl stream.id))),
      )

  save_session-saved :
      (row : StreamSession X.Json) (db : Database X.Json)
      → contains_key row.id db.stream_sessions ≡ false
      → contains_key row.stream_id db.streams ≡ true
      → save_session calls.answers row db
        ≡ (ok tt, record db { stream_sessions = insert row.id row db.stream_sessions })
  unfolding save_session
  save_session-saved row db free known =
      rw (connected Statement.insert_session, save_session)
        (rw (free, save_session) (rw (known, save_session) refl))

  save_session-taken :
      (row : StreamSession X.Json) (db : Database X.Json)
      → contains_key row.id db.stream_sessions ≡ true
      → save_session calls.answers row db ≡ (err (query_failed Statement.insert_session), db)
  unfolding save_session
  save_session-taken row db taken =
      rw (connected Statement.insert_session, save_session) (rw (taken, save_session) refl)

  finalize_stream_session-run :
      (now id : ℕ) (session : StreamSessionInfo X.hls_types.Float) (s : StreamManager X)
      → first_with (is_session_of id) (values s.stream_sessions) ≡ some session
      → finalize_stream_session calls now id s ≡ (
          let (r, db) =
            save_session calls.answers (session_row calls.to_json now id session) s.database in
          (map_err of_database r, record s { database = db }))
  unfolding finalize_stream_session
  finalize_stream_session-run now id session s found = rw (found, finalize_stream_session) refl

  pub finalize_stream_session-saved :
      (now id : ℕ) (session : StreamSessionInfo X.hls_types.Float) (s : StreamManager X)
      → first_with (is_session_of id) (values s.stream_sessions) ≡ some session
      → contains_key session.session_id s.database.stream_sessions ≡ false
      → contains_key id s.database.streams ≡ true
      → finalize_stream_session calls now id s
        ≡ (ok tt, with_row (session_row calls.to_json now id session) s)
  finalize_stream_session-saved now id session s found free known =
      finalize_stream_session-run now id session s found
      ∙ ap (λ a. (map_err of_database a.0, record s { database = a.1 }))
          (save_session-saved (session_row calls.to_json now id session) s.database free known)

  -- When the database answers and has the stream, the session of the stream, found in the table and
  -- not yet stored, is stored with what the table knows of it. As it also stays in the table, a second
  -- finalization of the stream finds it again and fails on its primary key.
  pub finalize_stream_session-twice :
      (now later id : ℕ) (session : StreamSessionInfo X.hls_types.Float) (s : StreamManager X)
      → first_with (is_session_of id) (values s.stream_sessions) ≡ some session
      → contains_key session.session_id s.database.stream_sessions ≡ false
      → contains_key id s.database.streams ≡ true
      → let (r, s') = finalize_stream_session calls now id s in
        (r ≡ ok tt)
        × (get_row session.session_id s' ≡ some (session_row calls.to_json now id session))
        × (finalize_stream_session calls later id s'
            ≡ (err (of_database (query_failed Statement.insert_session)), s'))
  finalize_stream_session-twice now later id session s found free known =
      let row = session_row calls.to_json now id session in
      let saved = with_row row s in
      let again : finalize_stream_session calls later id saved
          ≡ (err (of_database (query_failed Statement.insert_session)), saved) =
        finalize_stream_session-run later id session saved found
        ∙ ap (λ a. (map_err of_database a.0, record saved { database = a.1 }))
            (save_session-taken (session_row calls.to_json later id session) saved.database
              (contains_key-insert row.id row s.database.stream_sessions)) in
      rw (finalize_stream_session-saved now id session s found free known) (
        refl,
        ground (arith, get-insert row.id row.id row s.database.stream_sessions, beq_refl row.id),
        again,
      )
