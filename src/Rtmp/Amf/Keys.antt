-- ===== src/Rtmp/Amf/Keys.antt =====
-- Which stream keys the publish command yields.
use oxide_cast.Prelude.{ℕ, ◌≡◌, some, List, [], ◌∷◌, String, ok, arith, Result-cases, inl, inr}
use oxide_cast.Rtmp.Amf.{parse_amf0_string, position_of_marker, parse_stream_key_from_publish}
use text.Mathlib.TextEquality.{eq_iff}

module _ (lossy : List ℕ → String) where
  -- The marker that a string begins with is the first marker of the buffer.
  marker_first :
      (payload : List ℕ) (s : String)
      → parse_amf0_string lossy payload ≡ ok s
      → position_of_marker payload ≡ some 0
  unfolding parse_amf0_string position_of_marker
  marker_first [] s e = cc
  marker_first (a ∷ []) s e = cc
  marker_first (a ∷ b ∷ []) s e = cc
  marker_first (kind ∷ hi ∷ lo ∷ rest) s e = ground arith

  -- Whatever bytes a client sends, the only stream key that the publish command can yield is the
  -- word "publish" itself: the search for the next string starts over at the first one.
  pub parse_stream_key-publish :
      (payload : List ℕ) (stream_key : String)
      → parse_stream_key_from_publish lossy payload ≡ ok stream_key
      → stream_key ≡ "publish"
  unfolding parse_stream_key_from_publish
  parse_stream_key-publish payload stream_key e =
      elim (Result-cases (parse_amf0_string lossy payload)) [
        | inr (why, p) ↦ absurd (ground (arith, p, e))
        | inl (s, p) ↦ ground (arith, marker_first payload s p, eq_iff s "publish")
      ]
