-- ===== src/Rtmp/Amf.antt =====
-- The AMF0 parsing of src/rtmp_server.rs. `lossy` is `String::from_utf8_lossy`.
pub mod Keys
use oxide_cast.Prelude.{
  ℕ, ◌+◌, ◌*◌, ◌^◌, Option, none, some, List, [], ◌∷◌, String, length, take, drop, ltb, ◌==◌,
  if◌then◌else◌, Result, ok, err,
}
use text.Mathlib.Text.{◌==◌ as str_eq}

pub data AmfError : Type 0 where
  invalid_string not_a_string length_mismatch no_stream_key : AmfError

module _ (lossy : List ℕ → String) where
  unfoldable pub parse_amf0_string : List ℕ → Result AmfError String
  parse_amf0_string (kind ∷ hi ∷ lo ∷ rest) =
      let n = hi * 2 ^ 8 + lo in
      if kind == 0x02
      then (if ltb (length rest) n then err length_mismatch else ok (lossy (take n rest)))
      else err not_a_string
  parse_amf0_string _ = err invalid_string

-- `data.iter().position(|&b| b == 0x02)`.
unfoldable pub position_of_marker : List ℕ → Option ℕ
position_of_marker [] = none
position_of_marker (b ∷ rest) =
    if b == 0x02
    then some 0
    else (elim (position_of_marker rest) [ none ↦ none | some i ↦ some (i + 1) ])

module _ (lossy : List ℕ → String) where
  abbrev pub parse_next_string : List ℕ → Option ℕ → Result AmfError String
  parse_next_string payload none = err no_stream_key
  parse_next_string payload (some start) =
      if ltb (start + 1) (length payload)
      then parse_amf0_string lossy (drop start payload)
      else err no_stream_key

  unfoldable pub parse_stream_key_from_publish : List ℕ → Result AmfError String
  parse_stream_key_from_publish payload = elim (parse_amf0_string lossy payload) [
    | err _ ↦ err no_stream_key
    | ok first_param ↦
        if str_eq first_param "publish"
        then parse_next_string payload (position_of_marker payload)
        else err no_stream_key
  ]
