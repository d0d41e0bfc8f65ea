-- ===== src/Lib.antt =====
-- OxideCast: a streaming server. A publisher sends a stream over RTMP; the server sends its
-- packets to a multicast group, from where HLS and WebRTC servers read them.
--
-- The files and the code they are about (paths from the root of the repository):
--   Prelude, HashMap, Net: what the code uses of Rust: results, lists, hash maps and addresses.
--   Config: MulticastConfig of src/config.rs.
--   Settings: the settings of src/config.rs as a whole, with AppConfig::validate (validate).
--   Multicast: src/multicast.rs. Allocator is AddressAllocator, Group is MulticastGroup with what
--     the operations do to one group, Packet is MulticastPacket and the datagram of
--     PacketSender::send_packet with its parsing by the receivers of src/hls_server.rs and
--     src/webrtc_server.rs, and Manager is MulticastManager: new, create_group, remove_group,
--     send_packet, add_viewer, remove_viewer, update_viewer_last_seen, and a tick of cleanup_task
--     (cleanup).
--   Rtmp: src/rtmp_server.rs. Message and Codec are RtmpMessage and RtmpCodec with decode and
--     encode, Amf is the parsing of AMF0 strings, Server is the tables, the responses and
--     handle_command, Connection is the life of one connection: handle_connection and
--     handle_rtmp_messages.
--   Hls: src/hls_server.rs. Stream is HlsStream with its playlist and its clean-up, Writer is
--     SegmentWriter, Server is HlsServer: new, start_stream, stop_stream, one datagram of the
--     receiver (receive_datagram), a tick of cleanup_task (cleanup), track_viewer, update_playlist.
--   Transcoder: src/transcoder.rs. Job is the data, Manager is TranscoderManager: new,
--     start_transcoding, stop_transcoding, and the parts of run_transcoding_job (acquire, launch,
--     select, cleanup_job) as steps between the states of the manager and its tasks (Step).
--   Auth: src/auth.rs, with User and UserRole of src/database.rs: generate_tokens, verify_token,
--     extract_token_from_header, and the from_request of the three guards on what the guard of the
--     state finds, with the values that src/main.rs has Rocket manage (managed).
--   Action: calls that change a state and may fail, chained as the source chains them with `?`,
--     and the rules by which a chain keeps an invariant (Keeps).
--   WebRtc: src/webrtc_server.rs: its data (Stream), the streams, the receiver and the calls that
--     close connections (Server), and how a connection comes, changes and goes (Peers).
--   Database: the rows of streams, sessions and users of src/database.rs and the statements on
--     them, over the constraints and triggers of the migration.
--   StreamManager: src/stream_manager.rs over all of these: its state (State), start_stream and
--     authenticate_stream_key (Streams), stop_stream (Stop), handle_media_data (Media), the viewers
--     and the tasks in the background (Viewers) and the queries (Info).
--   Api: PaginationParams of src/api/mod.rs and the window of rows that list_streams of
--     src/api/streams.rs asks find_live_streams of src/database.rs for (Paging), and the handlers:
--     those of src/api/streams.rs that change a stream, over the stream manager (Streams), those of
--     src/api/auth.rs with create_login_response of src/auth.rs (Accounts), and those of
--     src/api/viewers.rs (Viewers).
--
-- State is passed on explicitly: an operation is one step, locks and all, so it is a function
-- from the state to its result and the new state; send_packet of src/multicast.rs, which gives
-- one lock back before it takes the other, is also there in its two halves. Instants are
-- numbers of nanoseconds; the clock, the ids of new entries, the sockets (UdpOps), the file
-- system (HlsCalls), the encoding of tokens (TokenOps), the calls of other components (Calls),
-- floats and paths are arguments. A machine integer is a number with its wrap-around written
-- out. An index out of bounds and an unwrap of nothing, which panic, are results of their own.
--
-- The loop over addresses of allocate_address is recursion on its bound of 1000 rounds, and
-- the loop over ports is recursion on the size of the range, so neither needs fuel. The loop
-- over the messages of a connection is recursion on the list of the messages that arrive.
--
-- Between the components, a call is made by `within` in Action: the stream manager calls the
-- model of the other component on its part of the state.
--
-- Not modelled: the accept loop and the bytes of the RTMP handshake, the tasks that the
-- manager of groups spawns (start) but for the clean-up, IGMP (log lines only), get_stats; the
-- reads of the HLS server; the command line and the progress lines of FFmpeg; the media engine
-- of the WebRTC server and its collection of statistics, which are logged only; the metrics
-- collector of the stream manager; the queries of users, viewers and metrics that nothing here
-- uses; the other handlers of the HTTP API; start-up and logging.
pub mod Prelude
pub mod HashMap
pub mod Net
pub mod Config
pub mod Action
pub mod Api
pub mod Auth
pub mod Database
pub mod Hls
pub mod Multicast
pub mod Rtmp
pub mod Settings
pub mod StreamManager
pub mod Transcoder
pub mod WebRtc
