-- ===== src/Api/Streams/Silent.antt =====
-- A stream that has been silent for too long, and its owner.
use oxide_cast.Prelude.{
  mem, ℕ, ◌≡◌, refl, ◌⊎◌, true, false, some, List, [], ◌∷◌, ok, err, ◌==◌, arith, inl, inr,
  Bool-cases, Option-cases,
}
use oxide_cast.HashMap.{nat_eq, HashMap, get}
use oxide_cast.HashMap.Laws.{get-modify}
use oxide_cast.Auth.{AuthenticatedUser}
use oxide_cast.Database.{Stream, Database, Answers, Statement, update_row}
use oxide_cast.Database.Streams.{find_by_id, stop_streaming, go_off}
use oxide_cast.StreamManager.State.{Crates, Calls, ActiveStreamInfo, StreamManager}
use oxide_cast.StreamManager.Viewers.{
  is_silent, silent_ids, mark_offline, mark_all, stream_health_monitor,
}
use oxide_cast.Api.Streams.{bad_request, find_stream, find_own, stop_stream}

-- The row of a stream of this user that is not live.
pub record IsEnded {Json : Type 0} (owner id : ℕ) (db : Database Json) : Type 0 where
  pub row : Stream
  pub found : get id db.streams ≡ some row
  pub ended : row.is_live ≡ false
  pub owned : row.user_id ≡ owner

abbrev off_row : ℕ → Stream → Stream
off_row now row = record (go_off now row) { updated_at = now }

module _ {Json : Type 0} (answers : Answers) where
  -- An update that ends the row of any stream, or a query that is not answered.
  abbrev Ends : ℕ → Database Json → Database Json → Type 0
  Ends now db db' = (db' ≡ db) ⊎ ((i : ℕ) × (db' ≡ update_row now i (go_off now) db))

  mark_offline-Ends :
      (now id : ℕ) (db : Database Json) → Ends now db (mark_offline answers now id db)
  unfolding mark_offline find_by_id stop_streaming
  mark_offline-Ends now id db = elim (Bool-cases (answers Statement.select_stream)) [
    | inr failed ↦ inl (rw (failed, mark_offline, find_by_id) refl)
    | inl asked ↦ elim (Option-cases (get id db.streams)) [
      | inl gone ↦
          inl (rw (asked, mark_offline, find_by_id) (rw (gone, mark_offline, find_by_id) refl))
      | inr (row, found) ↦ elim (Bool-cases (answers Statement.set_ended)) [
        | inr failed ↦ inl (
            rw (asked, mark_offline, find_by_id)
              (rw (found, mark_offline, find_by_id)
                (rw (failed, mark_offline, stop_streaming) refl)))
        | inl ended ↦ inr (
          row.id,
          rw (asked, mark_offline, find_by_id)
              (rw (found, mark_offline, find_by_id)
                (rw (ended, mark_offline, stop_streaming) refl)),
        )
      ]
    ]
  ]

  update_row-IsEnded :
      (now i owner id : ℕ) (db : Database Json)
      → IsEnded owner id db
      → IsEnded owner id (update_row now i (go_off now) db)
  update_row-IsEnded now i owner id db h = elim (Bool-cases (i == id)) [
    | inl same ↦ record {
      row = off_row now h.row;
      found = ground (arith, get-modify i id (off_row now) db.streams, same, h.found);
      ended = refl;
      owned = h.owned;
    }
    | inr other ↦ record {
      row = h.row;
      found = ground (arith, get-modify i id (off_row now) db.streams, other, h.found);
      ended = h.ended;
      owned = h.owned;
    }
  ]

  -- An update leaves a row as it is, or ends it.
  update_row-row :
      (now i id : ℕ) (row : Stream) (db : Database Json)
      → get id db.streams ≡ some row
      → IsEnded row.user_id id (update_row now i (go_off now) db)
        ⊎ (get id (update_row now i (go_off now) db).streams ≡ some row)
  update_row-row now i id row db h = elim (Bool-cases (i == id)) [
    | inl same ↦ inl (record {
      row = off_row now row;
      found = ground (arith, get-modify i id (off_row now) db.streams, same, h);
      ended = refl;
      owned = refl;
    })
    | inr other ↦ inr (ground (arith, get-modify i id (off_row now) db.streams, other, h))
  ]

  mark_all-IsEnded :
      (now owner id : ℕ) (ids : List ℕ) (db : Database Json)
      → IsEnded owner id db
      → IsEnded owner id (mark_all answers now ids db)
  unfolding mark_all
  mark_all-IsEnded now owner id [] db h = h
  mark_all-IsEnded now owner id (i ∷ ids) db h =
      mark_all-IsEnded now owner id ids (mark_offline answers now i db)
        (elim (mark_offline-Ends now i db) [
          | inl same ↦ rw same h
          | inr (j, ends) ↦ rw ends (update_row-IsEnded now j owner id db h)
        ])

  -- With the row under its own id, the mark of the stream itself ends it.
  mark_offline-own :
      (now id : ℕ) (row : Stream) (db : Database Json)
      → ((q : Statement) → answers q ≡ true)
      → get id db.streams ≡ some row
      → row.id ≡ id
      → IsEnded row.user_id id (mark_offline answers now id db)
  unfolding mark_offline find_by_id stop_streaming
  mark_offline-own now id row db connected found own =
      rw (connected Statement.select_stream, mark_offline, find_by_id)
        (rw (found, mark_offline, find_by_id)
          (rw (connected Statement.set_ended, mark_offline, stop_streaming)
            (record {
              row = off_row now row;
              found = ground (arith, get-modify row.id id (off_row now) db.streams, own, found);
              ended = refl;
              owned = refl;
            })))

  mark_all-mem :
      (now id : ℕ) (row : Stream) (ids : List ℕ) (db : Database Json)
      → ((q : Statement) → answers q ≡ true)
      → get id db.streams ≡ some row
      → row.id ≡ id
      → mem id ids ≡ true
      → IsEnded row.user_id id (mark_all answers now ids db)
  unfolding mark_all
  mark_all-mem now id row [] db connected found own m = absurd (ground arith)
  mark_all-mem now id row (i ∷ ids) db connected found own m = elim (Bool-cases (i == id)) [
    | inl same ↦
        mark_all-IsEnded now row.user_id id ids (mark_offline answers now i db)
          (rw ((nat_eq.same_iff i id).0 same) (mark_offline-own now id row db connected found own))
    | inr other ↦ elim (mark_offline-Ends now i db) [
      | inl kept ↦
          rw kept (mark_all-mem now id row ids db connected found own (ground (arith, other)))
      | inr (j, ends) ↦ rw ends (elim (update_row-row now j id row db found) [
        | inl over ↦ mark_all-IsEnded now row.user_id id ids (update_row now j (go_off now) db) over
        | inr kept ↦
            mark_all-mem now id row ids (update_row now j (go_off now) db) connected kept own
              (ground (arith, other))
      ])
    ]
  ]

mem-silent_ids :
    {Float : Type 0} (now id : ℕ) (info : ActiveStreamInfo Float)
    (active : HashMap ℕ (ActiveStreamInfo Float))
    → get id active ≡ some info
    → is_silent now info ≡ true
    → mem id (silent_ids now active) ≡ true
unfolding get
mem-silent_ids now id info [] h silent = absurd cc
mem-silent_ids now id info ((j, other) ∷ active) h silent =
    ground (arith, silent, nat_eq.same_iff j id, mem-silent_ids now id info active)

module _ {X : Crates} (calls : Calls X) (connected : (q : Statement) → calls.answers q ≡ true) where
  find_own-owned :
      (user : AuthenticatedUser) (id : ℕ) (s : StreamManager X) (e : IsEnded user.id id s.database)
      → find_own calls user id s ≡ (ok e.row, s)
  unfolding find_own find_stream find_by_id
  find_own-owned user id s e =
      rw (connected Statement.select_stream, find_own, find_by_id)
        (rw (e.found, find_own, find_by_id)
          (rw ((nat_eq.same_iff e.row.user_id user.id).1 e.owned, find_own, find_by_id) refl))

  stop_stream-ended :
      (now : ℕ) (user : AuthenticatedUser) (id : ℕ) (s : StreamManager X)
      → IsEnded user.id id s.database
      → stop_stream calls now user id s ≡ (err bad_request, s)
  unfolding stop_stream
  stop_stream-ended now user id s e =
      rw (find_own-owned user id s e, stop_stream) (rw (e.ended, stop_stream) refl)

  -- When the database answers, and the health monitor finds a stream on air, with its row under its
  -- own id, that has had no frame for more than 60 seconds, its owner can no longer stop it: the
  -- request is refused, as the row is not live, and the stream stays on air.
  pub stop_stream-stream_health_monitor :
      (now later : ℕ) (user : AuthenticatedUser) (id : ℕ) (row : Stream)
      (info : ActiveStreamInfo X.hls_types.Float) (s : StreamManager X)
      → get id s.active_streams ≡ some info
      → is_silent now info ≡ true
      → get id s.database.streams ≡ some row
      → row.id ≡ id
      → row.user_id ≡ user.id
      → let s' = stream_health_monitor calls.answers now s in
        (stop_stream calls later user id s' ≡ (err bad_request, s'))
        × (get id s'.active_streams ≡ some info)
  unfolding stream_health_monitor
  stop_stream-stream_health_monitor now later user id row info s active silent found own owned = (
    stop_stream-ended later user id (stream_health_monitor calls.answers now s) (
        rw⁻¹ owned (
          mark_all-mem calls.answers now id row (silent_ids now s.active_streams) s.database
            connected found own (mem-silent_ids now id info s.active_streams active silent))),
    active,
  )
