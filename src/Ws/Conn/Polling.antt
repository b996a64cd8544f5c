-- ===== src/Ws/Conn/Polling.antt =====
-- `ff_ws_conn_poll`: it ends, its state stays within its buffers, and each result leaves the
-- connection in the state that the result says.
use native.Mathlib.Decide.{dec_lt}
use obs_foxfire.Ws.Frame.{
  Opcode, cont, text, binary, close, ping, pong, max_payload, Message, Parsed, incomplete,
  malformed, frame, parse, build, be_bytes,
}
use obs_foxfire.Ws.Frame.Stream.{parse-frame_bounds, parse_full}
use obs_foxfire.Prelude.{
  ltb→lt, ltb, ltb→lt, Bool-cases, Option-cases, length, drop, length-append, length-drop, Bytes, ℕ,
  zero, suc, ◌+◌, ◌-◌, ◌≤◌, ◌<◌, ◌≡◌, refl, sym, ap, ◌∙◌, subst, ◌⊎◌, inl, inr, Bool, true, false,
  [], ◌++◌, arith,
}
use obs_foxfire.Ws.Conn.{
  dead, got, conn_buf, fail, stalled, message, return, again, close_code_of, add_payload,
  take_frame, send_loop, send_fuel, finish_send, conn_send, answer_ping, answer_close, on_frame,
  turn, poll_loop, poll, Io, Conn, Received, server_closed, Sent, all_sent, died, no_fuel, Polled,
  finished, nothing, out_of_fuel, Turn,
}

-- An application message is text or binary.
abbrev pub IsData : Opcode → Type 0
IsData op = (op ≡ text) ⊎ (op ≡ binary)

pub record IsValid (c : Conn) : Type 0 where
  pub held : length c.rx ≤ conn_buf
  pub assembled : length c.msg ≤ max_payload
  pub kind : c.in_msg ≡ true → IsData c.msg_op

-- What a result says of the connection that it leaves.
abbrev pub Outcome : Polled → Conn → Type 0
Outcome finished c = c.is_open ≡ false
Outcome nothing c = (parse c.rx ≡ incomplete) × (length c.rx < max_payload + 10)
Outcome (message m) c = (m.payload ≡ c.msg) × (m.fin ≡ true) × IsData m.op × (c.in_msg ≡ false)
Outcome out_of_fuel c = ⊥

-- What a turn of the loop says.
abbrev TurnOk : Conn → Turn → Conn → Type 0
TurnOk c (return p) c' = IsValid c' × Outcome p c'
TurnOk c again c' = IsValid c' × (length c'.rx < length c.rx)

add_payload_ok :
    (c : Conn) (m : Message) (op : Opcode) (so_far : Bytes) (used : ℕ)
    → IsValid c
    → parse c.rx ≡ frame m used
    → length so_far ≤ max_payload
    → IsData op
    → (let (t, c') = add_payload c m op so_far used in TurnOk c t c')
unfolding add_payload
add_payload_ok c m op so_far used v e small d =
    let left : (length (drop used c.rx) ≤ conn_buf) × (length (drop used c.rx) < length c.rx) =
      omega (arith, parse-frame_bounds c.rx e, length-drop used c.rx, v.held) in
    elim (Bool-cases (ltb max_payload (length so_far + length m.payload))) [
      | inl big ↦ rw big (record { held = v.held; assembled = small; kind = λ x. d }, refl)
      | inr fits ↦
          let whole : length (so_far ++ m.payload) ≤ max_payload =
            ground (arith, length-append so_far m.payload) in
          elim (Bool-cases m.fin) [
            | inl last ↦
                rw (fits, last)
                  (
                    record { held = left.0; assembled = whole; kind = λ x. d },
                    (refl, refl, d, refl),
                  )
            | inr more ↦
                rw (fits, more) (record { held = left.0; assembled = whole; kind = λ x. d }, left.1)
          ]
    ]

take_frame_ok :
    (c : Conn) (m : Message) (is_cont : Bool) (used : ℕ)
    → IsValid c
    → parse c.rx ≡ frame m used
    → (is_cont ≡ false → IsData m.op)
    → (let (t, c') = take_frame c m is_cont used in TurnOk c t c')
unfolding take_frame
take_frame_ok c m true used v e d = elim (Bool-cases c.in_msg) [
  | inl old ↦ simp old (add_payload_ok c m c.msg_op c.msg used v e v.assembled (v.kind old))
  | inr new ↦
      simp new
        (record { held = v.held; assembled = v.assembled; kind = λ x. v.kind (new ∙ x) }, refl)
]
take_frame_ok c m false used v e d = elim (Bool-cases c.in_msg) [
  | inl old ↦
      simp old (record { held = v.held; assembled = v.assembled; kind = λ x. v.kind old }, refl)
  | inr new ↦ simp new (add_payload_ok c m m.op [] used v e (omega arith) (d refl))
]

closed_ok :
    (d c : Conn) (used : ℕ)
    → d.rx ≡ c.rx
    → d.msg ≡ c.msg
    → d.in_msg ≡ c.in_msg
    → d.msg_op ≡ c.msg_op
    → IsValid c
    → IsValid (record d { is_open = false; rx = drop used d.rx })
closed_ok d c used rx msg in_msg op v = record {
  held = rw rx (omega (arith, length-drop used c.rx, v.held));
  assembled = rw msg v.assembled;
  kind = λ x. subst IsData (sym op) (v.kind (sym in_msg ∙ x));
}

-- The connection as the close frame is answered.
abbrev closing_conn : Conn → Message → Conn
closing_conn c m =
    record (fail (record c { close_code = close_code_of m.payload })
      (server_closed (close_code_of m.payload))) { closing = true }

room : (buf : Bytes) → parse buf ≡ incomplete → length buf < max_payload + 10
room buf e = elim (dec_lt (length buf) (max_payload + 10)) [
  | yes h ↦ h
  | no h ↦ absurd (parse_full buf (omega arith) e)
]

module _ (io : Io) where
  open io use {World}

  finish_send_keeps :
      (c : Conn) (n : ℕ) (s : Sent × World)
      → (finish_send io c n s).1 ≡ record c { err = (finish_send io c n s).1.err }
  unfolding finish_send
  finish_send_keeps c n (all_sent, w) = refl
  finish_send_keeps c n (died, w) = refl
  finish_send_keeps c n (no_fuel, w) = refl
  finish_send_keeps c n (stalled k, w) = refl

  -- `ff_ws_conn_send` changes nothing of the connection but the error text.
  pub conn_send_keeps :
      (c : Conn) (w : World) (op : Opcode) (payload : Bytes)
      → (conn_send io c w op payload).1 ≡ record c { err = (conn_send io c w op payload).1.err }
  unfolding conn_send
  conn_send_keeps c w op payload = elim (Option-cases (io.random w 4).0) [
    | inl e ↦ ground (arith, e)
    | inr (key, e) ↦ elim (Option-cases (build op payload key (length payload + 16))) [
      | inl b ↦ ground (arith, e, b)
      | inr (out, b) ↦ ground (
        arith,
        e,
        b,
        finish_send_keeps c (length out) (
            send_loop io (send_fuel io (length out))
              (io.alloc (io.random w 4).1 (length payload + 16)).1 out 0 0),
      )
    ]
  ]

  answer_ping_ok :
      (c : Conn) (w : World) (m : Message) (used : ℕ)
      → IsValid c
      → parse c.rx ≡ frame m used
      → (let (t, c', w') = answer_ping io c w m used in TurnOk c t c')
  unfolding answer_ping
  answer_ping_ok c w m used v e =
      ground (
        arith,
        parse-frame_bounds c.rx e,
        length-drop used c.rx,
        conn_send_keeps c w pong m.payload,
      )

  answer_close_ok :
      (c : Conn) (w : World) (m : Message) (used : ℕ)
      → IsValid c
      → parse c.rx ≡ frame m used
      → (let (t, c', w') = answer_close io c w m used in TurnOk c t c')
  unfolding answer_close
  answer_close_ok c w m used v e = elim (Bool-cases c.closing) [
    | inl old ↦ simp old (closed_ok (closing_conn c m) c used refl refl refl refl v, refl)
    | inr new ↦
        let same =
          conn_send_keeps (closing_conn c m) w close (be_bytes 2 (close_code_of m.payload)) in
        simp new (
          closed_ok
              (conn_send io (closing_conn c m) w close (be_bytes 2 (close_code_of m.payload))).1 c
              used (ap (λ (x : Conn). x.rx) same) (ap (λ (x : Conn). x.msg) same)
              (ap (λ (x : Conn). x.in_msg) same) (ap (λ (x : Conn). x.msg_op) same) v,
          refl,
        )
  ]

  on_frame_ok :
      (c : Conn) (w : World) (m : Message) (used : ℕ) (op : Opcode)
      → m.op ≡ op
      → IsValid c
      → parse c.rx ≡ frame m used
      → (let (t, c', w') = on_frame io c w m used op in TurnOk c t c')
  unfolding on_frame
  on_frame_ok c w m used ping o v e = answer_ping_ok c w m used v e
  on_frame_ok c w m used close o v e = answer_close_ok c w m used v e
  on_frame_ok c w m used text o v e = take_frame_ok c m false used v e (λ x. inl o)
  on_frame_ok c w m used binary o v e = take_frame_ok c m false used v e (λ x. inr o)
  on_frame_ok c w m used cont o v e = take_frame_ok c m true used v e (λ x. cc)
  on_frame_ok c w m used pong o v e =
      let left : (length (drop used c.rx) ≤ conn_buf) × (length (drop used c.rx) < length c.rx) =
        omega (arith, parse-frame_bounds c.rx e, length-drop used c.rx, v.held) in
      (record { held = left.0; assembled = v.assembled; kind = v.kind }, left.1)

  turn_ok : (c : Conn) (w : World) → IsValid c → (let (t, c', w') = turn io c w in TurnOk c t c')
  unfolding turn
  turn_ok c w v = go (parse c.rx) refl
    where
      go : (p : Parsed) → parse c.rx ≡ p → (let (t, c', w') = turn io c w in TurnOk c t c')
      go incomplete e = rw (e, turn) (v, (e, room c.rx e))
      go malformed e =
          rw (e, turn) (record { held = v.held; assembled = v.assembled; kind = v.kind }, refl)
      go (frame m used) e = rw (e, turn) (on_frame_ok c w m used m.op refl v e)

  poll_loop_ok :
      (f : ℕ) (c : Conn) (w : World)
      → IsValid c
      → length c.rx < f
      → (let (p, c', w') = poll_loop io f c w in IsValid c' × Outcome p c')
  unfolding poll_loop
  poll_loop_ok zero c w v h = absurd (omega arith)
  poll_loop_ok (suc f) c w v h =
      go (turn io c w).0 (turn_ok c w v)
        (λ v' l. poll_loop_ok f (turn io c w).1 (turn io c w).2 v' (omega arith)) refl
    where
      go :
          (t : Turn)
          → TurnOk c t (turn io c w).1
          → (IsValid (turn io c w).1
              → length (turn io c w).1.rx < length c.rx
              → (let (p, c', w') = poll_loop io f (turn io c w).1 (turn io c w).2 in
                  IsValid c' × Outcome p c'))
          → (turn io c w).0 ≡ t
          → (let (p, c', w') = poll_loop io (suc f) c w in IsValid c' × Outcome p c')
      go (return p) ok next e = rw (e, poll_loop) ok
      go again ok next e = rw (e, poll_loop) (next ok.0 ok.1)

  -- A poll of a valid connection ends within its fuel, whatever the server sends and the socket does,
  -- and leaves a connection whose buffers are within bounds. If it says that the connection is
  -- finished, the connection is closed. If it says that nothing is complete, the bytes held are an
  -- incomplete frame, and there is room to read more. If it hands up a message, that is a text or
  -- binary message of at most 2 ^ 20 bytes, and none is left begun.
  pub poll_ok :
      (c : Conn) (w : World)
      → IsValid c
      → c.allocated ≡ true
      → ((n : ℕ) (b : Bytes) → (io.recv w n).0 ≡ got b → length b ≤ n)
      → (let (p, c', w') = poll io c w in IsValid c' × Outcome p c')
  unfolding poll
  poll_ok c w v live short = elim (Bool-cases (ltb (length c.rx) conn_buf)) [
    | inr full ↦ simp (live, full) (poll_loop_ok (length c.rx + 1) c w v (omega arith))
    | inl less ↦ go less (io.recv w (conn_buf - length c.rx)).0 refl
  ]
    where
      go :
          ltb (length c.rx) conn_buf ≡ true
          → (r : Received) → (io.recv w (conn_buf - length c.rx)).0 ≡ r
          → (let (p, c', w') = poll io c w in IsValid c' × Outcome p c')
      go less dead e =
          simp (live, less, e, poll)
            (record { held = v.held; assembled = v.assembled; kind = v.kind }, refl)
      go less (got b) e =
          simp (live, less, e, poll)
            (poll_loop_ok (length (c.rx ++ b) + 1) (record c { allocated = true; rx = c.rx ++ b })
              (io.recv w (conn_buf - length c.rx)).1
              (record { held = fits; assembled = v.assembled; kind = v.kind }) (omega arith))
        where
          fits : length (c.rx ++ b) ≤ conn_buf
          fits = omega (
            arith,
            short (conn_buf - length c.rx) b e,
            length-append c.rx b,
            ltb→lt (length c.rx) conn_buf less,
          )
