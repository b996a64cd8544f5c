-- ===== src/Tests/Sockets.antt =====
-- Frames, the digest, the handshake and a connection whose socket is a list of bytes.
use obs_foxfire.Ws.Frame.{
  op_code, opcode_of, is_control, build, frame, read_length, parse_payload, parse, Message, cont,
  text, ping,
}
use obs_foxfire.Ws.Frame.Wire.{server_frame, parse-server_frame}
use obs_foxfire.Ws.Frame.Accepted.{parse-frame_sound}
use obs_foxfire.Ws.Frame.Client.{read_client_frame, read-build}
use obs_foxfire.Ws.Frame.Stream.{parse-append}
use obs_foxfire.Ws.Digest.{sha1_final, sha1_update, sha1_init, accept_for}
use obs_foxfire.Ws.Digest.Standard.{IsDigest, sha1_final-IsDigest}
use obs_foxfire.Ws.Conn.{
  Io, got, Conn, message, conn_send, poll, send_loop, send_fuel, no_fuel, turn, poll_loop, on_frame,
  take_frame, add_payload, answer_ping, finish_send,
}
use obs_foxfire.Ws.Conn.Sending.{Wire, conn_send-true, send_loop_total}
use obs_foxfire.Ws.Conn.Polling.{IsValid, Outcome}
use obs_foxfire.Ws.Conn.Assembly.{Came, received, poll-Came-IsValid}
use obs_foxfire.Ws.Handshake.{handshake_check, accepted}
use obs_foxfire.Ws.Handshake.Soundness.{IsUpgrade, handshake_sound}
use obs_foxfire.Prelude.{
  length, take, drop, replicate, length-take, length-replicate, take_all, Bytes, codes, IsBytes, ℕ,
  zero, suc, ◌≤◌, ◌≡◌, refl, sym, ap, ◌≢◌, true, false, some, [], ◌∷◌, ◌++◌, arith,
}
use obs_foxfire.Prelude.Int.{pos, negsuc}

abbrev hi : Message
hi = record { op = text; fin = true; payload = codes "hi" }

abbrev pub hi_frame : Bytes
hi_frame = 0x81 ∷ 2 ∷ b'h' ∷ b'i' ∷ []

parse-hi : parse (hi_frame ++ 7 ∷ []) ≡ frame hi 4
unfolding parse opcode_of parse_payload read_length is_control
parse-hi = refl

parse-server_frame_example :
    parse (server_frame true text (codes "hi") ++ 7 ∷ [])
    ≡ frame hi (length (server_frame true text (codes "hi")))
unfolding is_control op_code
parse-server_frame_example =
    parse-server_frame true text (codes "hi") (7 ∷ [])
      (record { size = omega arith; control = λ h. ground (arith, h) })

parse-frame_sound_example : take 4 (hi_frame ++ 7 ∷ []) ≡ server_frame true text (codes "hi")
parse-frame_sound_example = parse-frame_sound (hi_frame ++ 7 ∷ []) (omega arith) parse-hi

parse-ping :
    parse (0x89 ∷ 1 ∷ 5 ∷ []) ≡ frame (record { op = ping; fin = true; payload = 5 ∷ [] }) 3
unfolding parse opcode_of parse_payload read_length is_control
parse-ping = refl

ping_is_control : is_control ping ≡ true
unfolding is_control
ping_is_control = refl

parse-append_example : parse (hi_frame ++ 7 ∷ []) ≡ parse hi_frame
unfolding parse opcode_of parse_payload read_length is_control
parse-append_example = parse-append hi_frame (7 ∷ []) (λ h. ground (arith, h))

build-hi :
    build text (codes "hi") (1 ∷ 2 ∷ 3 ∷ 4 ∷ []) 18
    ≡ some (0x81 ∷ 0x82 ∷ 1 ∷ 2 ∷ 3 ∷ 4 ∷ 0x69 ∷ 0x6b ∷ [])
unfolding build
build-hi = refl

read-build_example :
    read_client_frame (0x81 ∷ 0x82 ∷ 1 ∷ 2 ∷ 3 ∷ 4 ∷ 0x69 ∷ 0x6b ∷ []) ≡ some (text, codes "hi")
read-build_example =
    read-build text (codes "hi") 1 2 3 4 18 (0x81 ∷ 0x82 ∷ 1 ∷ 2 ∷ 3 ∷ 4 ∷ 0x69 ∷ 0x6b ∷ [])
      (omega arith) (omega arith) (omega arith) build-hi

sha1_final-IsDigest_example :
    IsDigest
      (codes "abc")
      (sha1_final (sha1_update (sha1_update (sha1_init (replicate 64 9)) (codes "ab")) (codes "c")))
sha1_final-IsDigest_example =
    sha1_final-IsDigest (replicate 64 9) (codes "ab") (codes "c") refl (omega arith)

-- RFC 6455, section 1.3
accept_for_rfc :
    accept_for (replicate 64 7) (codes "dGhlIHNhbXBsZSBub25jZQ==") 64
    ≡ some (codes "s3pPLMBiTxaQ9kYGzzhZRbK+xOo=")
unfolding accept_for
accept_for_rfc = refl

-- A socket: what has come in and is not read yet, and what went out.
abbrev socket : Io
socket = record {
  World = Bytes × Bytes;
  send = λ w b. (pos (length b), (w.0, w.1 ++ b));
  recv = λ w n. (got (take n w.0), (drop n w.0, w.1));
  random = λ w n. (some (replicate n 7), w);
  alloc = λ w n. (true, w);
  sleep = λ w n. w;
}

abbrev conn : Conn
conn = record {
  allocated = true;
  rx = [];
  msg = [];
  msg_op = cont;
  in_msg = false;
  is_open = true;
  closing = false;
  close_code = 0;
  err = [];
}

-- "hi" in two frames with a ping between them
abbrev inbox : Bytes
inbox = 0x01 ∷ 1 ∷ b'h' ∷ 0x89 ∷ 0 ∷ 0x80 ∷ 1 ∷ b'i' ∷ []

polled : (poll socket conn (inbox, [])).0 ≡ message hi
unfolding poll poll_loop turn parse opcode_of parse_payload read_length is_control on_frame
    take_frame add_payload answer_ping conn_send build send_loop finish_send
polled = refl

conn-IsValid : IsValid conn
conn-IsValid = record { held = omega arith; assembled = omega arith; kind = λ h. ground (arith, h) }

poll-Came-IsValid_example :
    let (p, c', w') = poll socket conn (inbox, []) in
    IsValid c' × Outcome p c' × Came p (received socket conn (inbox, [])) c'
poll-Came-IsValid_example =
    poll-Came-IsValid socket conn (inbox, []) conn-IsValid refl
      (λ n b h. ground (arith, h, length-take n inbox))

sevens : (n : ℕ) → IsBytes (replicate n 7)
sevens zero = tt
sevens (suc n) = (omega arith, sevens n)

all_moved :
    (w : Bytes × Bytes) (b : Bytes) (k : ℕ)
    → pos (length b) ≡ pos k
    → (k ≤ length b) × ((w.1 ++ b) ≡ w.1 ++ take k b)
all_moved w b k h =
    let e : length b ≡ k = ground (arith, h) in
    (omega (arith, e), ap (λ x. w.1 ++ x) (sym (take_all k b (omega (arith, e)))))

never_unmoved : (m n : ℕ) → pos m ≢ negsuc n
never_unmoved m n h = ground (arith, h)

key_bytes : (n : ℕ) (b : Bytes) → some (replicate n 7) ≡ some b → (length b ≡ n) × IsBytes b
key_bytes n b h = ground (arith, h, length-replicate {A = ℕ} n 7, sevens n)

abbrev wire : Wire socket
wire = record {
  sent = λ w. w.1;
  moved = λ w b k h. all_moved w b k h;
  unmoved = λ w b n h. absurd (never_unmoved (length b) n h);
  asleep = λ w n. refl;
  random_quiet = λ w n. refl;
  alloc_quiet = λ w n. refl;
  random_bytes = λ w n b h. key_bytes n b h;
  recv_quiet = λ w n. refl;
}

sent_hi : (conn_send socket conn ([], []) text (codes "hi")).0 ≡ true
unfolding conn_send build send_loop finish_send
sent_hi = refl

conn_send-true_example :
    (f : Bytes) × (wire.sent (conn_send socket conn ([], []) text (codes "hi")).2
      ≡ wire.sent ([], []) ++ f)
    × (read_client_frame f ≡ some (text, codes "hi"))
    × ((conn_send socket conn ([], []) text (codes "hi")).1 ≡ conn)
conn_send-true_example =
    conn_send-true socket wire conn ([], []) text (codes "hi") (omega arith) (omega arith) sent_hi

send_loop_total_example :
    (send_loop socket (send_fuel socket (length hi_frame)) ([], []) hi_frame 0 0).0 ≢ no_fuel
send_loop_total_example = send_loop_total socket ([], []) hi_frame

abbrev pub response : Bytes
response =
    codes
      "HTTP/1.1 101 Switching Protocols\r\nupgrade: WebSocket\r\nConnection: keep-alive, Upgrade\r\nSec-WebSocket-Accept: s3pPLMBiTxaQ9kYGzzhZRbK+xOo=\r\n\r\n"

pub checked :
    handshake_check (replicate 64 7) (response ++ hi_frame) (codes "dGhlIHNhbXBsZSBub25jZQ==")
    ≡ accepted 141
unfolding handshake_check
checked = refl

handshake_sound_example :
    IsUpgrade (replicate 64 7) (response ++ hi_frame) (codes "dGhlIHNhbXBsZSBub25jZQ==") 141
handshake_sound_example =
    handshake_sound (replicate 64 7) (response ++ hi_frame) (codes "dGhlIHNhbXBsZSBub25jZQ==") 141
      checked
