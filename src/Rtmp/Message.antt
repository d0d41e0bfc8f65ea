-- ===== src/Rtmp/Message.antt =====
-- `RtmpMessage` and `RtmpMessageType` of src/rtmp_server.rs, with the codes of the types.
use oxide_cast.Prelude.{ℕ, Option, none, some, List, ◌==◌, if◌then◌else◌}

pub data RtmpMessageType : Type 0 where
  set_chunk_size abort_message acknowledgement user_control window_ack_size : RtmpMessageType
  set_peer_bandwidth audio_data video_data data_amf3 shared_object_amf3 : RtmpMessageType
  command_amf3 data_amf0 shared_object_amf0 command_amf0 aggregate_message : RtmpMessageType

pub record RtmpMessage : Type 0 where
  pub message_type : RtmpMessageType
  pub timestamp : ℕ
  pub stream_id : ℕ
  pub payload : List ℕ

-- `message_type as u8`.
abbrev pub type_code : RtmpMessageType → ℕ
type_code set_chunk_size = 1
type_code abort_message = 2
type_code acknowledgement = 3
type_code user_control = 4
type_code window_ack_size = 5
type_code set_peer_bandwidth = 6
type_code audio_data = 8
type_code video_data = 9
type_code data_amf3 = 15
type_code shared_object_amf3 = 16
type_code command_amf3 = 17
type_code data_amf0 = 18
type_code shared_object_amf0 = 19
type_code command_amf0 = 20
type_code aggregate_message = 22

-- The match on `message_type_id`.
unfoldable pub message_type_of : ℕ → Option RtmpMessageType
message_type_of id =
    if id == 1
    then some set_chunk_size
    else if id == 2
    then some abort_message
    else if id == 3
    then some acknowledgement
    else if id == 4
    then some user_control
    else if id == 5
    then some window_ack_size
    else if id == 6
    then some set_peer_bandwidth
    else if id == 8
    then some audio_data
    else if id == 9
    then some video_data
    else if id == 15
    then some data_amf3
    else if id == 16
    then some shared_object_amf3
    else if id == 17
    then some command_amf3
    else if id == 18
    then some data_amf0
    else if id == 19
    then some shared_object_amf0
    else if id == 20
    then some command_amf0
    else if id == 22
    then some aggregate_message
    else none
