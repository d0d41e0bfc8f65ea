-- ===== src/Hls/Server/Stops.antt =====
-- The start, the stop and the clean-up of HLS streams, with what their failures leave behind.
use oxide_cast.Prelude.{
  ℕ, ◌-◌, ◌*◌, ◌/◌, ◌≤◌, ◌≡◌, refl, Bool, true, false, inl, inr, none, some, String, Result-cases,
  ok, err, arith,
}
use oxide_cast.HashMap.{string_eq, get, remove}
use oxide_cast.HashMap.Laws.{get-insert, get-remove, beq_refl}
use oxide_cast.Net.{Ipv4Addr}
use oxide_cast.Hls.Stream.{Types, HlsSegment, MediaPlaylist}
use oxide_cast.Hls.Writer.{io_error, HlsCalls, finalize_current_segment}
use oxide_cast.Hls.Server.{
  HlsServer, start_stream, stop_stream, finalize_writer, drop_stream, update_playlist, new_stream,
}

module _ {T : Types} where
  -- When the directory is made but the socket of the receiver fails, `start_stream` fails and the
  -- stream stays among the active ones.
  pub start_stream_leaves :
      (calls : HlsCalls T) (now : ℕ) (key : String) (address : Ipv4Addr) (port : ℕ)
      (s : HlsServer T)
      → calls.create_dir_all (T.join s.config.segment_directory key) ≡ true
      → calls.bind_and_join address port ≡ false
      → let (r, s') = start_stream calls now key address port s in
        (r ≡ err io_error)
        × (get key s'.active_streams ≡ some (new_stream s.config now key address port))
  unfolding start_stream
  start_stream_leaves calls now key address port s made failed =
      let new = new_stream s.config now key address port in
      ground (arith, get-insert key key new s.active_streams, beq_refl key)

  -- The file system with another outcome for the playlist.
  abbrev pub with_playlist : (T.PathBuf → MediaPlaylist T → Bool) → HlsCalls T → HlsCalls T
  with_playlist write calls = record calls { write_playlist = write }

  update_dropped :
      (calls : HlsCalls T) (key : String) (s : HlsServer T)
      → update_playlist calls key (drop_stream key s) ≡ ok tt
  unfolding update_playlist
  update_dropped calls key s =
      let gone : get key (remove key s.active_streams) ≡ none =
        ground (arith, get-remove key key s.active_streams, beq_refl key) in
      rw (gone, update_playlist) refl

  finalize_writer-with_playlist :
      (write : T.PathBuf → MediaPlaylist T → Bool) (calls : HlsCalls T) (now : ℕ) (key : String)
      (s : HlsServer T)
      → finalize_writer (with_playlist write calls) now key s ≡ finalize_writer calls now key s
  unfolding finalize_writer finalize_current_segment
  finalize_writer-with_playlist write calls now key s = refl

  -- `stop_stream` gives the same result whatever the writing of a playlist would do: it writes no
  -- final playlist.
  pub stop_stream_silent :
      (write : T.PathBuf → MediaPlaylist T → Bool) (calls : HlsCalls T) (now : ℕ) (key : String)
      (s : HlsServer T)
      → stop_stream (with_playlist write calls) now key s ≡ stop_stream calls now key s
  unfolding stop_stream
  stop_stream_silent write calls now key s =
      rw (finalize_writer-with_playlist write calls now key s)
        (elim (Result-cases (finalize_writer calls now key s).0) [
          | inl (u, e) ↦
              rw
                (
                  e,
                  stop_stream,
                  update_dropped (with_playlist write calls) key
                      (finalize_writer calls now key s).1,
                  update_dropped calls key (finalize_writer calls now key s).1,
                )
                refl
          | inr (why, e) ↦ rw (e, stop_stream) refl
        ])

  -- A stop succeeds unless the flush of the open segment fails, and then the stream and its writer
  -- are gone.
  pub stop_stream_removes :
      (calls : HlsCalls T) (now : ℕ) (key : String) (s : HlsServer T)
      → (finalize_writer calls now key s).0 ≡ ok tt
      → let (r, s') = stop_stream calls now key s in
        (r ≡ ok tt) × (get key s'.active_streams ≡ none) × (get key s'.segment_writers ≡ none)
  unfolding stop_stream
  stop_stream_removes calls now key s e =
      let s' = (finalize_writer calls now key s).1 in
      rw (e, stop_stream)
        (
          update_dropped calls key s',
          ground (arith, get-remove key key s'.active_streams, beq_refl key),
          ground (arith, get-remove key key s'.segment_writers, beq_refl key),
        )

  abbrev pub IsYoung : ℕ → ℕ → HlsSegment T → Type 0
  IsYoung now interval segment = (now - segment.created_at) / 1_000_000_000 ≤ interval * 2
