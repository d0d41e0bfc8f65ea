-- ===== src/StreamManager/Counted.antt =====
-- The viewer count of every stream on air, over any history.
pub mod History
use oxide_cast.Prelude.{
  ℕ, ◌≡◌, refl, Bool, true, false, Option, none, some, List, [], ◌∷◌, String, ok, err, arith,
  length, sym, if◌then◌else◌, Bool-cases, inl, inr,
}
use oxide_cast.Action.{Action, ◌>>=◌, ◌>>◌, pure, require, require_some, gets, changes}
use oxide_cast.Action.Keeps.{Keeps, keeps_rules, changes-Keeps}
use oxide_cast.HashMap.{nat_eq, string_eq, ◌==◌, HashMap, get, insert, remove, modify, values}
use oxide_cast.HashMap.Laws.{get-insert, get-remove, get-modify}
use mathlib.Core.Option
use oxide_cast.Net.{SocketAddr}
use oxide_cast.StreamManager.State.{
  Crates, Calls, ActiveStreamInfo, ViewerTracking, ViewerInfo, StreamManager,
}
use oxide_cast.StreamManager.Streams.{FreshIds, new_tracking, enter, start_row, start_stream}
use oxide_cast.StreamManager.Stop.{
  take_off, untrack, save_of, finalize_stream_session, stop_job, stop_active, stop_found,
  stop_stream,
}
use oxide_cast.StreamManager.Media.{send_media, send_found, handle_media_data}
use oxide_cast.StreamManager.Viewers.{
  count_of, set_viewers, show_count, tracked_count, store_count, update_viewer_count, track,
  retrack, admit, add_viewer, remove_found, remove_viewer,
}
use oxide_cast.StreamManager.Tables.{Property, OnTables, table_rules}

module _ {Float : Type 0} where
  -- Each stream on air has the count of the viewers that are tracked for it.
  abbrev pub IsCounted : Property Float
  IsCounted active tracking =
      (id : ℕ) (info : ActiveStreamInfo Float)
      → get id active ≡ some info
      → info.viewer_count ≡ count_of (get id tracking)

  -- The same, but for one stream.
  abbrev IsCountedBut : ℕ → Property Float
  IsCountedBut but active tracking =
      (id : ℕ) (info : ActiveStreamInfo Float)
      → (but == id) ≡ false
      → get id active ≡ some info
      → info.viewer_count ≡ count_of (get id tracking)

module _ {X : Crates} where
  show_count-IsCounted :
      (id : ℕ) (s : StreamManager X)
      → OnTables (IsCountedBut id) s
      → OnTables IsCounted (show_count id (tracked_count id s) s)
  show_count-IsCounted id s h = record {
    holds = λ j info e. ground (
      arith,
      get-modify id j (set_viewers (tracked_count id s)) s.active_streams,
      h.holds j info,
      nat_eq.same_iff id j,
    );
  }

  abbrev pub Counted : StreamManager X → Type 0
  Counted = OnTables IsCounted

  store_count-Counted :
      (calls : Calls X) (now id n : ℕ) → Keeps Counted (store_count calls now id n)
  unfolding store_count
  store_count-Counted calls now id n = search table_rules

  retrack-Counted :
      (calls : Calls X) (now id : ℕ)
      (change : ViewerTracking X.hls_types.Float → ViewerTracking X.hls_types.Float)
      → Keeps Counted (retrack calls now id change)
  unfolding retrack update_viewer_count
  retrack-Counted calls now id change = record {
    after = λ s h.
        let s' = track id change s in
        (store_count-Counted calls now id (tracked_count id s')).after
          (show_count id (tracked_count id s') s')
          (show_count-IsCounted id s' (record {
            holds = λ j info other e.
                ground (arith, h.holds j info e, get-modify id j change s.viewer_tracking);
          }));
  }

  ruleset counted_rules = (table_rules, retrack-Counted)

  pub add_viewer-Counted :
      (calls : Calls X) (fresh_id now id : ℕ) (viewer : ViewerInfo)
      → Keeps Counted (add_viewer calls fresh_id now id viewer)
  unfolding add_viewer admit
  add_viewer-Counted calls fresh_id now id viewer = search counted_rules depth 20

  remove_found-Counted :
      (calls : Calls X) (now id : ℕ) (addr : SocketAddr)
      (found : Option (ActiveStreamInfo X.hls_types.Float))
      → Keeps Counted (remove_found calls now id addr found)
  remove_found-Counted calls now id addr none = search counted_rules
  remove_found-Counted calls now id addr (some info) = search counted_rules

  pub remove_viewer-Counted :
      (calls : Calls X) (now id : ℕ) (addr : SocketAddr)
      → Keeps Counted (remove_viewer calls now id addr)
  unfolding remove_viewer
  remove_viewer-Counted calls now id addr = search (counted_rules, remove_found-Counted)
