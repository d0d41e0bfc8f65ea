-- ===== src/StreamManager/Tables.antt =====
-- Properties of the active streams and of the viewer tracking, which no component sees.
use oxide_cast.Prelude.{ℕ}
use oxide_cast.Action.{Action}
use oxide_cast.Action.Keeps.{Keeps, keeps_rules, changes-Keeps}
use oxide_cast.HashMap.{HashMap}
use oxide_cast.Database.{Database, DbError}
use oxide_cast.Multicast.Manager.{ManagerError, MulticastManager}
use oxide_cast.Transcoder.Manager.{TranscoderError, TranscoderManager}
use oxide_cast.Hls.Writer.{HlsError}
use oxide_cast.Hls.Server.{HlsServer}
use oxide_cast.WebRtc.Server.{WebRtcError, WebRtcServer}
use oxide_cast.StreamManager.State.{
  Crates, ActiveStreamInfo, ViewerTracking, StreamManager, in_database, in_multicast, in_transcoder,
  in_hls, in_webrtc, on_multicast,
}

abbrev pub Property : Type 0 → Type 1
Property Float = HashMap ℕ (ActiveStreamInfo Float) → HashMap ℕ (ViewerTracking Float) → Type 0

pub record OnTables {X : Crates} (Q : Property X.hls_types.Float) (s : StreamManager X)
    : Type 0 where
  pub holds : Q s.active_streams s.viewer_tracking

module _ {X : Crates} {Q : Property X.hls_types.Float} {A : Type 0} where
  pub in_database-Keeps :
      (m : Action DbError (Database X.Json) A) → Keeps (OnTables Q) (in_database {X = X} m)
  in_database-Keeps m = record { after = λ s h. record { holds = h.holds } }

  pub in_multicast-Keeps :
      (m : Action ManagerError (MulticastManager X.Socket) A)
      → Keeps (OnTables Q) (in_multicast {X = X} m)
  in_multicast-Keeps m = record { after = λ s h. record { holds = h.holds } }

  pub in_transcoder-Keeps :
      (m : Action TranscoderError
        (TranscoderManager X.Profile X.hls_types.Float X.hls_types.PathBuf)
        A)
      → Keeps (OnTables Q) (in_transcoder {X = X} m)
  in_transcoder-Keeps m = record { after = λ s h. record { holds = h.holds } }

  pub in_hls-Keeps :
      (m : Action HlsError (HlsServer X.hls_types) A) → Keeps (OnTables Q) (in_hls {X = X} m)
  in_hls-Keeps m = record { after = λ s h. record { holds = h.holds } }

  pub in_webrtc-Keeps :
      (m : Action WebRtcError (WebRtcServer X.Float64 X.Peer) A)
      → Keeps (OnTables Q) (in_webrtc {X = X} m)
  in_webrtc-Keeps m = record { after = λ s h. record { holds = h.holds } }

module _ {X : Crates} {Q : Property X.hls_types.Float} where
  pub on_multicast-Keeps :
      (f : MulticastManager X.Socket → MulticastManager X.Socket)
      → Keeps (OnTables Q) (on_multicast {X = X} f)
  on_multicast-Keeps f = record { after = λ s h. record { holds = h.holds } }

pub ruleset table_rules = (
  keeps_rules, in_database-Keeps, in_multicast-Keeps, in_transcoder-Keeps, in_hls-Keeps,
  in_webrtc-Keeps, on_multicast-Keeps, changes-Keeps,
)
