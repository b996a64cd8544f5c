-- ===== src/Lib.antt =====
-- obs-foxfire: the logic of an OBS plugin that shows Twitch alerts and loads licensed packs.
--
-- The program's parts and how they interact. A worker connects to Twitch over a WebSocket (src/ff-ws.c
-- frames, src/ff-ws-conn.c handshake and connection). Each text message goes to a session
-- (src/ff-session.c), which has it read by the EventSub layer (src/ff-eventsub.c) and decides what to
-- do: subscribe, emit an alert, change over to another socket, drop the connection. Alerts wait in a
-- ring (src/ff-alert-queue.c) until the alert source (src/ff-alert-source.c) shows them one after the
-- other, and a text from Twitch is cleaned before it is drawn (src/ff-alert.c). The sign-in is kept on disk and renewed over HTTP (src/ff-twitch-api.c), and
-- the worker's loops tie all this together (src/ff-twitch.c). Audio levels go from the audio thread to
-- the renderer through a pair of slots (src/ff-handoff.c). Packs (src/ff-pack.c) carry licences that
-- are checked against a signature (src/ff-licence.c).
--
-- Files and code:
--   Prelude       numbers, lists, byte strings, bits, `int` values and decimal text
--   Queue         src/ff-alert-queue.c and its header: the enumeration, its names, the ring
--   Ws/Frame      src/ff-ws.c, ff_ws_build and ff_ws_parse
--   Ws/Digest     src/ff-ws.c, SHA-1, base64 and ff_ws_accept_for
--   Ws/Handshake  src/ff-ws-conn.c, ff_ws_handshake_request and ff_ws_handshake_check
--   Ws/Conn       src/ff-ws-conn.c, sending, closing and polling a connection
--   EventSub      src/ff-eventsub.c and its header
--   Session       src/ff-session.c, its header, and ff_twitch_is_stale of src/ff-twitch.c
--   Licence       src/ff-licence.c and its header
--   Sanitise      src/ff-alert.c, ff_alert_sanitise
--   Alert         src/ff-alert-source.c, the source and its children; src/ff-alert.c, ff_alert_text_kind and ff_alert_text_apply
--   Alert/Play    src/ff-alert-source.c, ff_alert_enqueue, start_alert, alert_tick and the buttons
--   Alert/Settings  src/ff-alert-source.c, alert_create, alert_update, alert_defaults and alert_destroy
--   Alert/Page    src/ff-alert-source.c, alert_props and add_twitch_status
--   Alert/Draw    src/ff-alert-source.c, alert_render, alert_enum and alert_audio_render
--   Alert/Steps   sequences of those operations
--   Twitch        src/ff-twitch.c, the backoff; src/ff-twitch-api.c, scopes and form encoding
--   Twitch/Panel  src/ff-twitch.c, what the worker and the panel share under the lock
--   Twitch/Api    src/ff-twitch-api.c, the sign-in's requests and what is made of the answers
--   Twitch/Api/Helix   src/ff-twitch-api.c, ff_twitch_user_id and ff_twitch_subscribe
--   Twitch/Api/Tokens  src/ff-twitch-api.c, the stored sign-in
--   Twitch/Worker src/ff-twitch.c, texts, naps and do_sign_in; below it Turn and Run for run_once, Loop for worker
--   Net           src/ff-net.c, ff_url_parse
--   Net/Open      src/ff-net.c, net_send, net_recv and ff_net_ws_open
--   Net/Http      src/ff-net.c, on_body and ff_http_request
--   Handoff       src/ff-handoff.c; Handoff/Threads has the two threads' steps
--   Pack          src/ff-pack.c, ids, relative paths, base names and ff_shared_config_path
--   Pack/Load     src/ff-pack.c, parse_preset; Pack/Load/Manifest has the rest of ff_pack_load_dir and scan_dir
--   Pack/Archive  src/ff-pack.c, check_zip_entries and listing_has_symlink
--   Pack/Remove   src/ff-pack.c, path_is_symlink and ff_remove_recursive
--   Pack/Install  src/ff-pack.c, ff_packs_scan, run_args_capture, find_on_path and ff_packs_install_zip
--   Tests         runs on concrete inputs, and the theorems at concrete arguments
-- A module below one of these states and proves what its name says.
--
-- State and operations. A `struct` is a record, an `enum` a data type, a buffer with its length a list
-- of bytes, and a C string the list of its bytes before the zero. A function that changes `*s` returns
-- the new value next to its result. A pointer that must not be null is not tested. Texts written by
-- `snprintf` are data (the reason) with a function that spells them, cut to the array's size. Unsigned
-- arithmetic wraps where it is written `% 2 ^ w`; signed arithmetic is on integers.
--
-- Parameters: the socket, the random source, `malloc` and the sleep (record Io of Ws/Conn); the JSON
-- reader of libobs and OBS's locale (record Json of EventSub); the Ed25519 check (an argument in
-- Licence); the HTTP request and the clock (record Http of Twitch/Api); the disk (record Files of
-- Twitch/Api/Tokens); curl (record Curl of Net/Open). The worker uses its panel, API, store and
-- sockets through the record Services of Twitch/Worker. The loading of a pack reads the record Store
-- of Pack/Load: the disk, the JSON reader, `sscanf` of a version and the plugin's own version. The
-- installation of a pack takes the disk, the processes and a Store for each state of the disk from the
-- record Disk of Pack/Remove, and the HTTP request takes curl from the record Client of Net/Http. The
-- alert source takes the arithmetic of float, whose values are bit patterns, and the calls of libobs
-- from the record Host of Alert, and its settings from the record Data of Alert/Settings; what it asks
-- of OBS it lists in its calls. What is assumed of a socket is the record Wire of Ws/Conn/Sending.
--
-- Bounds and fuel. Loops that are not structural run on fuel: a read loop has as much as it has bytes,
-- for every turn takes one at least; a send has 202 turns for each byte and 202 more, for at most 200
-- empty turns in a row go by; the worker's loops and the sending of an upgrade request, which the code
-- does not bound, run for any number of turns, and the theorems hold for each; the removal of a directory goes down as many levels as it is told, where the code has
-- no bound, and the theorems hold for each number; padding has 64, for a
-- zero is added until 56 of 64 bytes are full.
--
-- Not modelled: null arguments, memory itself and its release, TLS and the wait for a socket (inside
-- curl and the system), plain log lines, the start and end of the worker's thread,
-- the branches for Windows of src/ff-pack.c,
-- memory that is reordered (src/ff-handoff.c), the audio analysis (floating point), the graphics states
-- and textures of libobs, the other sources and the dock (OBS and Qt), and the vendored libraries.

pub mod Alert
pub mod EventSub
pub mod Handoff
pub mod Licence
pub mod Net
pub mod Pack
pub mod Prelude
pub mod Queue
pub mod Sanitise
pub mod Session
pub mod Tests
pub mod Twitch
pub mod Ws
