-- ===== src/StreamManager/Streams/Stuck.antt =====
-- A start that fails half way, and what can be done with the stream afterwards.
use oxide_cast.Prelude.{ℕ, ◌≡◌, refl, true, false, none, some, ok, err, ap, ◌∙◌, as_i32}
use oxide_cast.HashMap.{nat_eq, string_eq, get}
use oxide_cast.HashMap.Laws.{get-modify_self}
use oxide_cast.Net.{Ipv4Addr}
use oxide_cast.Database.{Stream, Statement, update_row}
use oxide_cast.Database.Streams.{find_by_id, start_streaming, go_live}
use oxide_cast.Multicast.Manager.{MulticastManager}
use oxide_cast.Multicast.Manager as Multicast
use oxide_cast.Transcoder.Manager.{all_known, unknown_profile, start_transcoding}
use oxide_cast.StreamManager.State.{Crates, Calls, already_live, of_transcoder, StreamManager}
use oxide_cast.StreamManager.Stop.{stop_stream}
use oxide_cast.StreamManager.Stop.Partial.{stop_stream-none}
use oxide_cast.StreamManager.Streams.{FreshIds, start_row, start_stream}

module _ {X : Crates} (calls : Calls X) where
  abbrev pub live_row : ℕ → Stream → Ipv4Addr × ℕ → Stream
  live_row now row place = go_live now (calls.show_address place.0) (as_i32 place.1) row

  -- What a start leaves when a profile of the row is unknown to the transcoder.
  abbrev pub half_started :
      ℕ → Stream → Ipv4Addr × ℕ → MulticastManager X.Socket → StreamManager X → StreamManager X
  half_started now stream place m' s = record s {
    multicast_manager = m';
    database =
        update_row now stream.id (go_live now (calls.show_address place.0) (as_i32 place.1))
          s.database;
  }

module _ {X : Crates} (calls : Calls X) (connected : (q : Statement) → calls.answers q ≡ true) where
  start_stream-row :
      (ids : FreshIds) (now id : ℕ) (stream : Stream) (s : StreamManager X)
      → get id s.database.streams ≡ some stream
      → start_stream calls ids now id s ≡ start_row calls ids now id stream s
  unfolding start_stream find_by_id
  start_stream-row ids now id stream s found =
      rw (connected Statement.select_stream, start_stream, find_by_id)
        (rw (found, start_stream, find_by_id) refl)

  start_row-unknown :
      (ids : FreshIds) (now id : ℕ) (stream : Stream) (place : Ipv4Addr × ℕ)
      (m' : MulticastManager X.Socket) (s : StreamManager X)
      → stream.is_live ≡ false
      → all_known stream.transcoding_profiles s.transcoder_manager.profiles_map ≡ false
      → Multicast.create_group calls.net ids.group_id now stream.stream_key s.multicast_manager
        ≡ (ok place, m')
      → start_row calls ids now id stream s
        ≡ (err (of_transcoder unknown_profile), half_started calls now stream place m' s)
  unfolding start_row start_streaming start_transcoding
  start_row-unknown ids now id stream place m' s off unknown group =
      rw (off, start_row)
        (rw (group, start_row)
          (rw (connected Statement.set_live, start_row, start_streaming)
            (rw (unknown, start_row, start_transcoding) refl)))

  start_row-live :
      (ids : FreshIds) (now id : ℕ) (stream : Stream) (s : StreamManager X)
      → stream.is_live ≡ true
      → start_row calls ids now id stream s ≡ (err already_live, s)
  unfolding start_row
  start_row-live ids now id stream s on = rw (on, start_row) refl

  -- When the database answers, a stream that is not live and not on air is started, its
  -- multicast group can be made, and a profile of its row is unknown to the transcoder, the
  -- start fails, but the group and a row that says live are left. From then on, while nothing
  -- else changes, every start of the stream fails because it is live, and every stop succeeds
  -- and changes nothing.
  pub start_stream-unknown :
      (ids : FreshIds) (now : ℕ) (stream : Stream) (place : Ipv4Addr × ℕ)
      (m' : MulticastManager X.Socket) (s : StreamManager X)
      → get stream.id s.database.streams ≡ some stream
      → stream.is_live ≡ false
      → all_known stream.transcoding_profiles s.transcoder_manager.profiles_map ≡ false
      → Multicast.create_group calls.net ids.group_id now stream.stream_key s.multicast_manager
        ≡ (ok place, m')
      → get stream.id s.active_streams ≡ none
      → let (r, s') = start_stream calls ids now stream.id s in
        (r ≡ err (of_transcoder unknown_profile))
        × (s' ≡ half_started calls now stream place m' s)
        × ((ids' : FreshIds) (later : ℕ)
            → start_stream calls ids' later stream.id s' ≡ (err already_live, s'))
        × ((later : ℕ) → stop_stream calls later stream.id s' ≡ (ok tt, s'))
  start_stream-unknown ids now stream place m' s found off unknown group free =
      let run : start_stream calls ids now stream.id s
          ≡ (err (of_transcoder unknown_profile), half_started calls now stream place m' s) =
        start_stream-row ids now stream.id stream s found
        ∙ start_row-unknown ids now stream.id stream place m' s off unknown group in
      (
        ap (λ r. r.0) run,
        ap (λ r. r.1) run,
        λ ids' later. rw run (
            start_stream-row ids' later stream.id
              (record (live_row calls now stream place) { updated_at = now })
              (half_started calls now stream place m' s)
              (get-modify_self stream.id stream
                (λ row. record (live_row calls now row place) { updated_at = now })
                s.database.streams found)
            ∙ start_row-live ids' later stream.id
                (record (live_row calls now stream place) { updated_at = now })
                (half_started calls now stream place m' s) refl),
        λ later. rw run (
            stop_stream-none calls later stream.id (half_started calls now stream place m' s) free),
      )
