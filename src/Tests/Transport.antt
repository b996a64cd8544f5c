-- ===== src/Tests/Transport.antt =====
-- URLs, the opening of a socket, and Twitch's HTTP interface, over simulated worlds.
use obs_foxfire.EventSub.{Json}
use obs_foxfire.Net.{Url, url_parse}
use obs_foxfire.Net.Parsing.{IsUrl, written, url_parse-written}
use obs_foxfire.Net.Open.{Curl, moved, upgraded, read_upgrade, connect}
use obs_foxfire.Net.Open.Upgrade.{GivesBack, connect-GivesBack}
use obs_foxfire.Ws.Conn.{Conn}
use obs_foxfire.Ws.Frame.{cont}
use obs_foxfire.Pack.{last_anchor, shared_config_path}
use obs_foxfire.Tests.Sockets.{response, hi_frame}
use obs_foxfire.Twitch.Api.{Http, set_bases, Token, answered, escaped, refresh, rejected, is_class}
use obs_foxfire.Twitch.Api.Renewal.{renewal_request, refresh-rejected}
use obs_foxfire.Twitch.Api.Tokens.{
  Files, Disk, entry, token_path, token_save, token_load, token_load-token_save,
}
use obs_foxfire.Prelude.{
  if◌then◌else◌, length, drop, replicate, Bytes, codes, bytes_eq, ◌≡◌, refl, true, false, not,
  Option, none, some, List, [], ◌∷◌, ◌++◌, arith,
}
use obs_foxfire.Prelude.Int.{ℤ, pos}

abbrev twitch_url : Url
twitch_url = record {
  scheme = codes "wss";
  host = codes "a.tv";
  port = codes "443";
  path = codes "/ws";
  secure = true;
}

twitch_IsUrl : IsUrl twitch_url
unfolding obs_foxfire.Net.is_secure
twitch_IsUrl = record {
  known = refl;
  named = (refl, (refl, (refl, (refl, tt))));
  host_fits = (omega arith, omega arith);
  port_fits = (omega arith, omega arith);
  digits = refl;
  starts = refl;
  path_fits = omega arith;
}

url_parse-written_example : url_parse (written twitch_url) ≡ some twitch_url
url_parse-written_example = url_parse-written twitch_url twitch_IsUrl

-- A path may begin with the question mark alone.
bare_query :
    url_parse (codes "ws://a?x")
    ≡ some (record {
      scheme = codes "ws";
      host = codes "a";
      port = codes "80";
      path = codes "?x";
      secure = false;
    })
unfolding url_parse obs_foxfire.Net.split_scheme obs_foxfire.Net.is_secure obs_foxfire.Net.read_rest
    obs_foxfire.Net.authority obs_foxfire.Net.host_port obs_foxfire.Net.plain_host
    obs_foxfire.Net.last_colon obs_foxfire.Net.read_port obs_foxfire.Net.read_path
bare_query = refl

-- A wire on which chunks wait, and that takes all it is given.
abbrev chunk : List Bytes → Bytes
chunk [] = []
chunk (c ∷ rest) = c

abbrev wire : Curl
wire = record {
  World = List Bytes;
  Handle = Unit;
  easy_init = λ w. (some tt, w);
  perform = λ w h url. (none, w);
  has_socket = λ w h. (true, w);
  easy_send = λ w h b. (moved (length b), w);
  easy_recv = λ w h n. (moved (chunk w), drop 1 w);
  wait = λ w h n writing. w;
  cleanup = λ w h. w;
  new_net = λ w. (true, w);
  random = λ w n. (some (replicate n 7), w);
  alloc = λ w n. (true, w);
  sleep = λ w n. w;
}

abbrev sample_key : Bytes
sample_key = codes "dGhlIHNhbXBsZSBub25jZQ=="

kept_frame :
    (read_upgrade wire (replicate 64 7) 2 ((response ++ hi_frame) ∷ []) tt sample_key []).0
    ≡ upgraded (drop 141 (response ++ hi_frame))
unfolding read_upgrade obs_foxfire.Net.Open.net_recv
kept_frame = refl

-- What a server answers to the key that this wire draws.
abbrev answer : Bytes
answer =
    codes
      "HTTP/1.1 101 Switching Protocols\r\nUpgrade: websocket\r\nConnection: Upgrade\r\nSec-WebSocket-Accept: CdXSYUsvsaMthlEXWDNURGWA/1o=\r\n\r\n"

abbrev opened_conn : Conn
opened_conn = record {
  allocated = true;
  rx = hi_frame;
  msg = [];
  msg_op = cont;
  in_msg = false;
  is_open = true;
  closing = false;
  close_code = 0;
  err = [];
}

connect-GivesBack_example : GivesBack wire tt (connect wire (replicate 64 7) 9 [] tt twitch_url 512)
connect-GivesBack_example = connect-GivesBack wire tt (replicate 64 7) 9 [] twitch_url 512

-- Twitch answers every request with 401.
abbrev reader : Json
reader = record {
  Data = Bytes;
  from_json = λ s. some s;
  get_obj = λ d key. some d;
  get_string = λ d key. d;
  get_int = λ d key. pos 10;
  get_bool = λ d key. false;
  module_text = λ key. key;
}

abbrev refusing : Http
refusing = record {
  World = Unit;
  json = reader;
  get_array = λ d key. [];
  request = λ w r. (answered (pos 401) (some (codes "no")), w);
  time = λ w. (pos 5, w);
}

id_fits : escaped (codes "id") 256 ≡ some (codes "id")
unfolding escaped obs_foxfire.Twitch.form_escape obs_foxfire.Twitch.escape_from
id_fits = refl

rt_fits : escaped (codes "rt") 1024 ≡ some (codes "rt")
unfolding escaped obs_foxfire.Twitch.form_escape obs_foxfire.Twitch.escape_from
rt_fits = refl

no_id : escaped [] 256 ≡ none
unfolding escaped obs_foxfire.Twitch.form_escape obs_foxfire.Twitch.escape_from
no_id = refl

is_rejected :
    (refresh refusing (set_bases none none) tt (codes "id") (codes "rt")).0
    ≡ rejected (codes "the saved sign-in is no longer valid (401): no")
unfolding refresh obs_foxfire.Twitch.Api.post_form obs_foxfire.Twitch.Api.read_reply
    obs_foxfire.Twitch.Api.renewal_posted obs_foxfire.Twitch.Api.read_renewal
    obs_foxfire.Prelude.Text.decimal_ℤ obs_foxfire.Prelude.Text.decimal
is_rejected = refl

refresh-rejected_example :
    (status : ℤ) × (text : Bytes) × ((refusing.request tt
        (renewal_request (set_bases none none) (codes "id") (codes "rt"))).0
      ≡ answered status (some text))
    × (is_class status 4 ≡ true)
refresh-rejected_example =
    refresh-rejected refusing (set_bases none none) tt (codes "id") (codes "rt") (codes "id")
      (codes "rt") (codes "the saved sign-in is no longer valid (401): no") id_fits rt_fits
      is_rejected

-- A disk of one file.
abbrev pair_reader : Json
pair_reader = record {
  Data = List (Bytes × Bytes);
  from_json = λ s. none;
  get_obj = λ d key. none;
  get_string = λ d key. entry d key;
  get_int = λ d key. pos 0;
  get_bool = λ d key. false;
  module_text = λ key. key;
}

abbrev disk_files : Files
disk_files = record {
  World = Option (List (Bytes × Bytes));
  json = pair_reader;
  load_json = λ w path. (w, w);
  save_json = λ w path es. (true, some es);
  restrict = λ w path. (true, w);
  remove = λ w path. none;
}

one_file : Disk disk_files
one_file = record {
  holds = λ w path es. w ≡ some es;
  saved = λ w path es ok. refl;
  kept = λ w path es h. h;
  read = λ w path es h. (es, h, λ key. refl);
  gone = λ w path. refl;
}

abbrev saved_token : Token
saved_token = record {
  access = codes "a";
  refresh = codes "r";
  expires_at = pos 9;
  scope_list = codes "s";
}

abbrev plugin_dir : Bytes
plugin_dir = codes "/p/plugin_config/x/packs"

saves : (token_save disk_files none plugin_dir saved_token).0 ≡ true
unfolding token_save token_path obs_foxfire.Pack.shared_config_path obs_foxfire.Pack.last_anchor
saves = refl

token_load-token_save_example :
    (token_load disk_files (token_save disk_files none plugin_dir saved_token).1 plugin_dir).0
    ≡ some (record saved_token { access = []; expires_at = pos 0 })
token_load-token_save_example =
    token_load-token_save disk_files one_file none plugin_dir saved_token refl (omega arith)
      (omega arith) saves
