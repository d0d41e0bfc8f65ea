-- ===== src/Rtmp/Server/Commands.antt =====
-- Commands as AMF0 encodes them.
use oxide_cast.Prelude.{ℕ, ◌<◌, ◌≡◌, List, [], ◌∷◌, String, arith, err}
use oxide_cast.Net.{SocketAddr}
use oxide_cast.Rtmp.Amf.{AmfError, invalid_string, not_a_string, parse_amf0_string}
use oxide_cast.Rtmp.Server.{RtmpServer, Calls, amf, handle_command}

module _ (lossy : List ℕ → String) where
  -- A payload that begins with an AMF0 string of at most 511 bytes (the marker, then a length below
  -- 512) is refused, whatever its command is, and nothing changes.
  pub handle_command_refuses :
      (calls : Calls) (addr : SocketAddr) (now hi lo : ℕ) (name : List ℕ) (s : RtmpServer)
      → hi < 2
      → (e : AmfError) × (handle_command lossy calls addr now (0x02 ∷ hi ∷ lo ∷ name) s
          ≡ (err (amf e), s))
  unfolding handle_command parse_amf0_string
  handle_command_refuses calls addr now hi lo [] s h = (invalid_string, ground arith)
  handle_command_refuses calls addr now hi lo (x ∷ name) s h = (not_a_string, ground arith)
