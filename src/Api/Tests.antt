-- ===== src/Api/Tests.antt =====
-- Concrete requests, and the theorems on the API at concrete inputs.
use oxide_cast.Api.Viewers.{JoinStreamRequest, join_stream}
use oxide_cast.Database.{Stream, Database}
use oxide_cast.Database.Streams
use oxide_cast.Multicast.Manager as Multicast
use oxide_cast.Multicast.Manager.{create_group, create_multicast_socket}
use oxide_cast.Multicast.Allocator
use oxide_cast.Multicast.Allocator.{allocate_address, find_address, find_port, address_at}
use oxide_cast.Api.Streams.{find_stream, TextOps, forbidden, bad_request, stop_stream}
use oxide_cast.Database.Streams.{find_by_id}
use oxide_cast.StreamManager.Viewers.{
  add_viewer, admit, retrack, update_viewer_count, store_count, tracked_count,
  stream_health_monitor,
}
use oxide_cast.StreamManager.Info.{get_stream_url, get_stream_info}
use oxide_cast.HashMap.{insert, modify, nat_eq, get, contains_key, values}
use oxide_cast.StreamManager.Samples.{net, multicast_config, crates, calls, stream_row, idle}
use oxide_cast.Prelude.{
  pos, Result, Bool, ok, err, false, true, none, ℕ, List, ◌+◌, ◌-◌, ◌*◌, ◌/◌, ◌^◌, ◌≤◌, ◌<◌, ◌≡◌,
  refl, ◌↔◌, some, [], ◌∷◌, get_elem?, arith,
}
use oxide_cast.Api.Viewers.Single.{Visit, joins, visits, tracked_count-visits}
use oxide_cast.Net.{v4, octets}
use oxide_cast.Api.Accounts.{AccountOps, RegisterRequest, create_login_response, login, register}
use oxide_cast.Api.Accounts.Register.{user_row, register-login}
use oxide_cast.Auth.{AuthenticatedUser, streamer, generate_tokens}
use oxide_cast.StreamManager.State.{Calls, StreamManager}
use oxide_cast.StreamManager.Streams.{active_of, new_tracking}
use oxide_cast.Api.Streams.Owners.{deletes, handle, handle-refusal}
use oxide_cast.Api.Streams.Silent.{stop_stream-stream_health_monitor}
use oxide_cast.Api.{PaginationParams, page, limit, offset, find_live_streams, list_streams}
use oxide_cast.Api.Paging.{offset_iff, get_elem?-list_streams, page_iff}

abbrev rows : List ℕ
rows = 10 ∷ 11 ∷ 12 ∷ 13 ∷ 14 ∷ []

abbrev second_page : PaginationParams
second_page = record { page = some 2; limit = some 2 }

-- A page far behind shows rows from the beginning.
wrapped : offset (record { page = some 42949674; limit = some 100 }) ≡ 4
unfolding offset page limit
wrapped = refl

shown : list_streams second_page rows ≡ 12 ∷ 13 ∷ []
unfolding list_streams find_live_streams offset page limit
shown = refl

offset_iff_example :
    (offset second_page ≡ (page second_page - 1) * limit second_page)
    ↔ ((page second_page - 1) * limit second_page < 2 ^ 32)
offset_iff_example = offset_iff second_page

fits : (page second_page - 1) * limit second_page < 2 ^ 32
unfolding page limit
fits = omega arith

below : 0 < limit second_page
unfolding limit
below = omega arith

get_elem?-list_streams_example :
    get_elem? (list_streams second_page rows) 0
    ≡ get_elem? rows ((page second_page - 1) * limit second_page + 0)
get_elem?-list_streams_example = get_elem?-list_streams second_page rows 0 fits below

page_iff_example :
    ((offset second_page ≤ 3) × (3 < offset second_page + limit second_page))
    ↔ (page second_page ≡ 3 / limit second_page + 1)
page_iff_example = page_iff second_page 3 fits

abbrev stranger : AuthenticatedUser
stranger = record { id = 6; username = "stranger"; role = streamer }

abbrev text : TextOps
text = record { is_blank = λ title. false; len = λ title. 5 }

handle-refusal_example :
    handle text calls 9 stranger 1 deletes (idle ("720p" ∷ []))
    ≡ (err forbidden, idle ("720p" ∷ []))
unfolding get
handle-refusal_example =
    handle-refusal text calls 9 stranger (stream_row ("720p" ∷ [])) 1 deletes (idle ("720p" ∷ []))
      refl refl

abbrev owner : AuthenticatedUser
owner = record { id = 5; username = "owner"; role = streamer }

abbrev live_row : Stream
live_row = record (stream_row ("720p" ∷ [])) {
  is_live = true;
  started_at = some 1_000_000_000;
  multicast_address = some "239.255.0.2";
  multicast_port = some (pos 30000);
}

-- A stream on air without a frame for 61 seconds.
abbrev silent : StreamManager crates
silent = record (idle ("720p" ∷ [])) {
  database = record { users = []; streams = (1, live_row) ∷ []; stream_sessions = [] };
  active_streams =
      (1, active_of 0 20 1_000_000_000 (stream_row ("720p" ∷ [])) "239.255.0.2" 30000) ∷ [];
}

stop_stream-stream_health_monitor_example :
    let s' = stream_health_monitor calls.answers 62_000_000_000 silent in
    (stop_stream calls 63_000_000_000 owner 1 s' ≡ (err bad_request, s'))
    × (get 1 s'.active_streams
        ≡ some (active_of 0 20 1_000_000_000 (stream_row ("720p" ∷ [])) "239.255.0.2" 30000))
unfolding get
stop_stream-stream_health_monitor_example =
    stop_stream-stream_health_monitor calls (λ q. refl) 62_000_000_000 63_000_000_000 owner 1
      live_row (active_of 0 20 1_000_000_000 (stream_row ("720p" ∷ [])) "239.255.0.2" 30000) silent
      refl refl refl refl refl

abbrev account_ops : AccountOps
account_ops = record {
  config = record {
    jwt_secret = "secret";
    jwt_expiry = 3600;
    refresh_expiry = 604800;
    bcrypt_cost = 12;
    require_email_verification = false;
  };
  tokens = record {
    encode = λ claims. some claims.username;
    decode = λ now token. none;
    to_string = λ id. "7";
    parse_str = λ text. some 7;
  };
  hash_password = λ password. some "hash";
  verify_password = λ password hash. some true;
  len = λ text. 12;
  has_at = λ text. true;
}

abbrev carol : RegisterRequest
carol = record { username = "carol"; email = "carol@example.com"; password = "long password" }

abbrev no_users : Database (Unit {0})
no_users = record { users = []; streams = []; stream_sessions = [] }

register-login_example :
    let (r, db') = register account_ops (λ q. true) 7 "key" 10 carol no_users in
    let user = user_row 7 10 "key" carol "hash" in
    (r ≡ ok (create_login_response account_ops.config user ("carol", "carol")))
    × (login account_ops
          (λ q. true)
          20
          (record { username = "carol"; password = "long password" })
          db'
        ≡ (ok (create_login_response account_ops.config user ("carol", "carol")), db'))
unfolding generate_tokens contains_key values
register-login_example =
    register-login account_ops (λ q. true) (λ q. refl) 7 10 20 "key" carol "hash" ("carol", "carol")
      ("carol", "carol") no_users refl refl refl refl refl refl refl refl

abbrev is_ok : {A B : Type 0} → Result B A → Bool
is_ok (ok _) = true
is_ok (err _) = false

abbrev local_calls : Calls crates
local_calls = record calls { parse_ip = λ text. some (v4 (octets 127 0 0 1)) }

abbrev visitor : JoinStreamRequest
visitor = record { connection_type = "multicast"; quality_profile = none; user_agent = none }

abbrev tracked : StreamManager crates
tracked = record silent {
  viewer_tracking = (1, new_tracking 1) ∷ (2, new_tracking 2) ∷ [];
  multicast_manager = (create_group net 10 0 "live" (Multicast.new multicast_config)).1;
}

abbrev two_visits : List Visit
two_visits =
    joins (λ q. true) 50 51 0 none 1 visitor
    ∷ joins (λ q. true) 52 53 1 (some stranger) 1 visitor
    ∷ []

tracked_count-visits_example :
    tracked_count 1 (visits (λ text. text) local_calls two_visits tracked) ≤ 1
tracked_count-visits_example =
    tracked_count-visits (λ text. text) local_calls two_visits tracked 1 refl (refl, (refl, tt))

-- Both are let in, and count as one viewer.
two_visits_count :
    (let first = join_stream (λ text. text) local_calls 50 51 0 none 1 visitor tracked in
      let second =
        join_stream (λ text. text) local_calls 52 53 1 (some stranger) 1 visitor first.1 in
      (is_ok first.0 ≡ true) × (is_ok second.0 ≡ true))
    × (tracked_count 1 (visits (λ text. text) local_calls two_visits tracked) ≡ 1)
unfolding visits join_stream add_viewer find_stream find_by_id get insert modify create_group
    create_multicast_socket allocate_address find_address find_port address_at contains_key
    Multicast.new Allocator.new admit retrack update_viewer_count store_count
    Streams.update_viewer_count get_stream_url Multicast.add_viewer get_stream_info
two_visits_count = ((refl, refl), refl)
