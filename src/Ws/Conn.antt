-- ===== src/Ws/Conn.antt =====
-- The connection of src/ff-ws-conn.c: sending a frame, closing, and the read loop that puts messages
-- together. The buffers `rx` and `msg` with their lengths are lists; a call that changes `*c` returns
-- the new connection. `err` is a C string of at most 255 bytes. Null arguments are not modelled,
-- except for the freed buffers, which `allocated` stands for.
pub mod Sending
pub mod Polling
pub mod Assembly
use obs_foxfire.Prelude.Text.{decimal, decimal_ℤ}
use obs_foxfire.Ws.Frame.{
  Opcode, cont, text, binary, close, ping, pong, max_payload, build, be_bytes, Message, incomplete,
  malformed, frame, parse,
}
use obs_foxfire.Prelude.{
  ltb, ◌==◌, if◌then◌else◌, length, set, drop, Bytes, codes, clip, ℕ, zero, suc, ◌+◌, ◌-◌, ◌*◌,
  Bool, true, false, not, ◌&&◌, Option, none, some, [], ◌∷◌, ◌++◌,
}
use obs_foxfire.Prelude.Int.{ℤ, pos, negsuc, pos_part, to_int32}

-- What `io.recv` gives: a negative result, or the bytes moved (none for 0).
pub data Received : Type 0 where
  dead : Received
  got : Bytes → Received

-- The world that a connection acts on: the two function pointers of `struct ff_ws_io`, the source of
-- random bytes (`ff_ws_random`, which reads the system's), `malloc` and `os_sleep_ms`.
pub record Io : Type 1 where
  pub World : Type 0
  pub send : World → Bytes → ℤ × World
  pub recv : World → ℕ → Received × World
  pub random : World → ℕ → Option Bytes × World
  pub alloc : World → ℕ → Bool × World
  pub sleep : World → ℕ → World

-- `struct ff_ws_conn`, less the io.
pub record Conn : Type 0 where
  pub allocated : Bool
  pub rx : Bytes
  pub msg : Bytes
  pub msg_op : Opcode
  pub in_msg : Bool
  pub is_open : Bool
  pub closing : Bool
  pub close_code : ℕ
  pub err : Bytes

-- FF_WS_CONN_BUF
abbrev pub conn_buf : ℕ
conn_buf = max_payload + 16

-- What the code writes to `err`.
pub data Complaint : Type 0 where
  reading_died sending_died no_random unreadable stray_continuation unfinished too_large : Complaint
  no_memory no_frame server_closed : ℕ → Complaint
  stopped : ℕ → ℕ → Complaint

pub complaint_text : Complaint → Bytes
complaint_text reading_died = codes "the connection died while reading"
complaint_text sending_died = codes "the connection died while sending"
complaint_text no_random = codes "no random source for the frame mask"
complaint_text unreadable = codes "the server sent a frame we cannot read"
complaint_text stray_continuation = codes "a continuation frame with no message to continue"
complaint_text unfinished = codes "a new message started before the previous one finished"
complaint_text too_large = codes "a message larger than 1048576 bytes"
complaint_text (no_memory n) =
    codes "out of memory building a " ++ (decimal n ++ codes "-byte frame")
complaint_text (no_frame n) =
    codes "could not build a " ++ (decimal_ℤ (to_int32 (pos n)) ++ codes "-byte frame")
complaint_text (server_closed n) =
    codes "the server closed the connection (" ++ (decimal n ++ codes ")")
complaint_text (stopped sent n) =
    codes "the connection stopped accepting data after "
    ++ (decimal sent ++ (codes " of " ++ (decimal n ++ codes " bytes")))

abbrev pub fail : Conn → Complaint → Conn
fail c why = record c { err = clip 256 (complaint_text why) }

-- How the loop of `ff_ws_conn_send` ends. `no_fuel` is the model's own.
pub data Sent : Type 0 where
  all_sent died no_fuel : Sent
  stalled : ℕ → Sent

-- What `ff_ws_conn_poll` returns: -1, 0, or 1 with the message. `no_fuel` is the model's own.
pub data Polled : Type 0 where
  finished nothing out_of_fuel : Polled
  message : Message → Polled

-- One turn of the loop of `ff_ws_conn_poll`: it returns, or goes on.
pub data Turn : Type 0 where
  return : Polled → Turn
  again : Turn

-- The close code of a close frame's payload.
unfoldable pub close_code_of : Bytes → ℕ
close_code_of (hi ∷ lo ∷ rest) = hi * 256 + lo
close_code_of _ = 1005

-- `drop`
abbrev pub drop_rx : Conn → ℕ → Conn
drop_rx c used = record c { rx = drop used c.rx }

-- The payload of `m` is added to what is put together so far, `so_far`, for a message of kind `op`.
unfoldable pub add_payload : Conn → Message → Opcode → Bytes → ℕ → Turn × Conn
add_payload c m op so_far used =
    if ltb max_payload (length so_far + length m.payload)
    then (
      return finished,
      record (fail c too_large) { is_open = false; msg = so_far; msg_op = op; in_msg = true },
    )
    else if m.fin
    then (
      return (message (record { op = op; fin = true; payload = so_far ++ m.payload })),
      record c { rx = drop used c.rx; msg = so_far ++ m.payload; msg_op = op; in_msg = false },
    )
    else (
      again,
      record c { rx = drop used c.rx; msg = so_far ++ m.payload; msg_op = op; in_msg = true },
    )

-- The branch for text, binary and continuation frames, `m` having taken `used` bytes; the flag is
-- `m.op == FF_WS_CONT`.
unfoldable pub take_frame : Conn → Message → Bool → ℕ → Turn × Conn
take_frame c m true used =
    if not c.in_msg
    then (return finished, record (fail c stray_continuation) { is_open = false })
    else add_payload c m c.msg_op c.msg used
take_frame c m false used =
    if c.in_msg
    then (return finished, record (fail c unfinished) { is_open = false })
    else add_payload c m m.op [] used

module _ (io : Io) where
  open io use {World, send, recv, random, alloc, sleep}

  -- The loop of `ff_ws_conn_send` from `sent` bytes on, after `idle` empty turns.
  unfoldable pub send_loop : ℕ → World → Bytes → ℕ → ℕ → Sent × World
  send_loop zero w out sent idle = (no_fuel, w)
  send_loop (suc f) w out sent idle =
      let (r, w') = send w (drop sent out) in
      let waited = send_loop f (sleep w' 5) out sent (idle + 1) in
      let moved = send_loop f w' out (sent + pos_part r) 0 in
      if ltb sent (length out)
      then elim r [
        | negsuc n ↦ (died, w')
        | pos zero ↦ if ltb 200 (idle + 1) then (stalled sent, w') else waited
        | pos (suc k) ↦ moved
      ]
      else (all_sent, w)

  -- Each turn sends a byte or is one of at most 201 empty ones in a row.
  abbrev pub send_fuel : ℕ → ℕ
  send_fuel n = n * 202 + 202

  unfoldable pub finish_send : Conn → ℕ → Sent × World → Bool × Conn × World
  finish_send c n (all_sent, w) = (true, c, w)
  finish_send c n (died, w) = (false, fail c sending_died, w)
  finish_send c n (no_fuel, w) = (false, c, w)
  finish_send c n (stalled sent, w) = (false, fail c (stopped sent n), w)

  -- `ff_ws_conn_send`
  unfoldable pub conn_send : Conn → World → Opcode → Bytes → Bool × Conn × World
  conn_send c w op payload =
      let (mask, w1) = random w 4 in
      elim mask [
        | none ↦ (false, fail c no_random, w1)
        | some key ↦
            let (ok, w2) = alloc w1 (length payload + 16) in
            if ok
            then elim (build op payload key (length payload + 16)) [
              | none ↦ (false, fail c (no_frame (length payload)), w2)
              | some out ↦
                  finish_send c (length out) (send_loop (send_fuel (length out)) w2 out 0 0)
            ]
            else (false, fail c (no_memory (length payload)), w2)
      ]

  -- `ff_ws_conn_close`
  unfoldable pub conn_close : Conn → World → ℕ → Conn × World
  conn_close c w code =
      let (ok, c', w') =
        conn_send (record c { closing = true; is_open = false }) w close (be_bytes 2 code) in
      if c.closing then (c, w) else (c', w')

  -- `ff_ws_conn_init` on memory set to zero, and `ff_ws_conn_free`.
  unfoldable pub conn_free : Conn → Conn
  conn_free c = record c { allocated = false; rx = []; msg = []; is_open = false }

  unfoldable pub conn_init : World → Bool × Conn × World
  conn_init w =
      let (ok, w1) = alloc w conn_buf in
      let (ok', w2) = alloc w1 max_payload in
      let c : Conn = record {
        allocated = true;
        rx = [];
        msg = [];
        msg_op = cont;
        in_msg = false;
        is_open = false;
        closing = false;
        close_code = 0;
        err = [];
      } in
      if ok && ok' then (true, record c { is_open = true }, w2) else (false, conn_free c, w2)

  -- The answer to a ping.
  unfoldable pub answer_ping : Conn → World → Message → ℕ → Turn × Conn × World
  answer_ping c w m used =
      let (ok, c', w') = conn_send c w pong m.payload in
      if ok
      then (again, drop_rx c' used, w')
      else (return finished, record c' { is_open = false }, w')

  -- The answer to a close frame.
  unfoldable pub answer_close : Conn → World → Message → ℕ → Turn × Conn × World
  answer_close c w m used =
      let code = close_code_of m.payload in
      let c1 = fail (record c { close_code = code }) (server_closed code) in
      let (ok, c2, w2) = conn_send (record c1 { closing = true }) w close (be_bytes 2 code) in
      if c.closing
      then (return finished, drop_rx (record c1 { is_open = false }) used, w)
      else (return finished, drop_rx (record c2 { is_open = false }) used, w2)

  -- What is done with a frame.
  unfoldable pub on_frame : Conn → World → Message → ℕ → Opcode → Turn × Conn × World
  on_frame c w m used ping = answer_ping c w m used
  on_frame c w m used close = answer_close c w m used
  on_frame c w m used text = let (t, c') = take_frame c m false used in (t, c', w)
  on_frame c w m used binary = let (t, c') = take_frame c m false used in (t, c', w)
  on_frame c w m used cont = let (t, c') = take_frame c m true used in (t, c', w)
  on_frame c w m used pong = (again, drop_rx c used, w)

  unfoldable pub turn : Conn → World → Turn × Conn × World
  turn c w = elim (parse c.rx) [
    | incomplete ↦ (return nothing, c, w)
    | malformed ↦ (return finished, record (fail c unreadable) { is_open = false }, w)
    | frame m used ↦ on_frame c w m used m.op
  ]

  -- The loop of `ff_ws_conn_poll`.
  unfoldable pub poll_loop : ℕ → Conn → World → Polled × Conn × World
  poll_loop zero c w = (out_of_fuel, c, w)
  poll_loop (suc f) c w =
      let (t, c', w') = turn c w in
      let rest = poll_loop f c' w' in elim t [ return p ↦ (p, c', w') | again ↦ rest ]

  -- `ff_ws_conn_poll`; each turn that goes on drops a frame, so the bytes held are enough fuel.
  unfoldable pub poll : Conn → World → Polled × Conn × World
  poll c w =
      let (r, w') = recv w (conn_buf - length c.rx) in
      if not c.allocated
      then (finished, c, w)
      else if ltb (length c.rx) conn_buf
      then elim r [
        | dead ↦ (finished, record (fail c reading_died) { is_open = false }, w')
        | got bytes ↦ poll_loop (length (c.rx ++ bytes) + 1) (record c { rx = c.rx ++ bytes }) w'
      ]
      else poll_loop (length c.rx + 1) c w
