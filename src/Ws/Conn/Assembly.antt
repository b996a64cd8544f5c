-- ===== src/Ws/Conn/Assembly.antt =====
-- The message that `ff_ws_conn_poll` hands up, against the frames that the connection's buffer holds.
use obs_foxfire.Ws.Frame.{
  Opcode, cont, text, binary, close, ping, pong, Message, Parsed, incomplete, malformed, frame,
  parse, max_payload,
}
use obs_foxfire.Ws.Conn.{
  dead, got, conn_buf, message, return, again, add_payload, take_frame, conn_send, answer_ping,
  answer_close, on_frame, turn, poll_loop, poll, Io, Conn, Received, Polled, finished, nothing,
  out_of_fuel, Turn,
}
use obs_foxfire.Ws.Conn.Polling.{IsData, IsValid, Outcome, conn_send_keeps, poll_ok}
use obs_foxfire.Prelude.{
  ltb, if◌then◌else◌, Bool-cases, length, drop, Bytes, ℕ, zero, suc, ◌+◌, ◌-◌, ◌≤◌, ◌≡◌, refl,
  subst, ◌⊎◌, inl, inr, Bool, true, false, [], ◌++◌,
}

-- A data frame begins a message of its own kind when none is begun, or is a continuation of the one
-- that is; `op` and `so_far` are the kind and the bytes of that message before the frame's own.
abbrev pub Continues : Bool → Opcode → Bytes → Message → Opcode → Bytes → Type 0
Continues begun old_op old m op so_far =
    ((begun ≡ false) × IsData m.op × (op ≡ m.op) × (so_far ≡ []))
    ⊎ ((begun ≡ true) × (m.op ≡ cont) × (op ≡ old_op) × (so_far ≡ old))

-- The frames in front of a buffer are those of one message, up to its final frame and with control
-- frames between them: the message is the frames' bytes in a row, and `rest` is what follows.
pub data Brings : Bool → Opcode → Bytes → Bytes → Message → Bytes → Type 0 where
  control :
      {begun : Bool} {op : Opcode} {so_far buf rest : Bytes} {out m : Message} {used : ℕ}
      → parse buf ≡ frame m used
      → (m.op ≡ ping) ⊎ (m.op ≡ pong)
      → Brings begun op so_far (drop used buf) out rest
      → Brings begun op so_far buf out rest
  part :
      {begun : Bool} {op op' : Opcode} {so_far so_far' buf rest : Bytes} {out m : Message}
      {used : ℕ}
      → parse buf ≡ frame m used
      → Continues begun op so_far m op' so_far'
      → m.fin ≡ false
      → Brings true op' (so_far' ++ m.payload) (drop used buf) out rest
      → Brings begun op so_far buf out rest
  last :
      {begun : Bool} {op op' : Opcode} {so_far so_far' buf : Bytes} {m : Message} {used : ℕ}
      → parse buf ≡ frame m used
      → Continues begun op so_far m op' so_far'
      → m.fin ≡ true
      → Brings begun op so_far buf
          (record { op = op'; fin = true; payload = so_far' ++ m.payload })
          (drop used buf)

-- The frames that a connection holds bring a message.
abbrev pub Holds : Conn → Message → Bytes → Type 0
Holds c out rest = Brings c.in_msg c.msg_op c.msg c.rx out rest

-- What is handed up is what the frames bring, and the bytes behind them are left.
abbrev pub Came : Polled → Conn → Conn → Type 0
Came finished c c' = Unit
Came nothing c c' = Unit
Came (message out) c c' = Holds c out c'.rx
Came out_of_fuel c c' = Unit

abbrev Follows : Conn → Turn → Conn → Type 0
Follows c (return p) c' = Came p c c'
Follows c again c' = (out : Message) (rest : Bytes) → Holds c' out rest → Holds c out rest

add_payload-Follows :
    (c : Conn) (m : Message) (op : Opcode) (so_far : Bytes) (used : ℕ)
    → parse c.rx ≡ frame m used
    → Continues c.in_msg c.msg_op c.msg m op so_far
    → (let (t, c') = add_payload c m op so_far used in Follows c t c')
unfolding add_payload
add_payload-Follows c m op so_far used e k =
    elim (Bool-cases (ltb max_payload (length so_far + length m.payload))) [
      | inl big ↦ rw big tt
      | inr fits ↦ elim (Bool-cases m.fin) [
        | inl whole ↦ rw (fits, whole) (last e k whole)
        | inr more ↦ rw (fits, more) (λ out rest b. part e k more b)
      ]
    ]

take_frame-Follows :
    (c : Conn) (m : Message) (is_cont : Bool) (used : ℕ)
    → parse c.rx ≡ frame m used
    → (is_cont ≡ true → m.op ≡ cont)
    → (is_cont ≡ false → IsData m.op)
    → (let (t, c') = take_frame c m is_cont used in Follows c t c')
unfolding take_frame
take_frame-Follows c m true used e k d = elim (Bool-cases c.in_msg) [
  | inl old ↦
      simp old (add_payload-Follows c m c.msg_op c.msg used e (inr (old, k refl, refl, refl)))
  | inr new ↦ simp new tt
]
take_frame-Follows c m false used e k d = elim (Bool-cases c.in_msg) [
  | inl old ↦ simp old tt
  | inr new ↦ simp new (add_payload-Follows c m m.op [] used e (inl (new, d refl, refl, refl)))
]

module _ (io : Io) where
  open io use {World}

  answer_ping-Follows :
      (c : Conn) (w : World) (m : Message) (used : ℕ)
      → parse c.rx ≡ frame m used
      → m.op ≡ ping
      → (let (t, c', w') = answer_ping io c w m used in Follows c t c')
  unfolding answer_ping
  answer_ping-Follows c w m used e o =
      let same = conn_send_keeps io c w pong m.payload in
      elim (Bool-cases (conn_send io c w pong m.payload).0) [
        | inr failed ↦ rw failed tt
        | inl done ↦ rw done (λ out rest b.
            control e (inl o) (
              subst (λ (d : Conn). Brings d.in_msg d.msg_op d.msg (drop used d.rx) out rest) same
                b))
      ]

  answer_close-Follows :
      (c : Conn) (w : World) (m : Message) (used : ℕ)
      → (let (t, c', w') = answer_close io c w m used in Follows c t c')
  unfolding answer_close
  answer_close-Follows c w m used = elim (Bool-cases c.closing) [
    | inl old ↦ simp old tt
    | inr new ↦ simp new tt
  ]

  on_frame-Follows :
      (c : Conn) (w : World) (m : Message) (used : ℕ) (op : Opcode)
      → m.op ≡ op
      → parse c.rx ≡ frame m used
      → (let (t, c', w') = on_frame io c w m used op in Follows c t c')
  unfolding on_frame
  on_frame-Follows c w m used ping o e = answer_ping-Follows c w m used e o
  on_frame-Follows c w m used close o e = answer_close-Follows c w m used
  on_frame-Follows c w m used text o e = take_frame-Follows c m false used e (λ x. cc) (λ x. inl o)
  on_frame-Follows c w m used binary o e =
      take_frame-Follows c m false used e (λ x. cc) (λ x. inr o)
  on_frame-Follows c w m used cont o e = take_frame-Follows c m true used e (λ x. o) (λ x. cc)
  on_frame-Follows c w m used pong o e = λ out rest b. control e (inr o) b

  turn-Follows : (c : Conn) (w : World) → (let (t, c', w') = turn io c w in Follows c t c')
  unfolding turn
  turn-Follows c w = go (parse c.rx) refl
    where
      go : (p : Parsed) → parse c.rx ≡ p → (let (t, c', w') = turn io c w in Follows c t c')
      go incomplete e = rw (e, turn) tt
      go malformed e = rw (e, turn) tt
      go (frame m used) e = rw (e, turn) (on_frame-Follows c w m used m.op refl e)

  later : (p : Polled) (c d c' : Conn) → Follows c again d → Came p d c' → Came p c c'
  later finished c d c' f k = tt
  later nothing c d c' f k = tt
  later (message out) c d c' f k = f out c'.rx k
  later out_of_fuel c d c' f k = tt

  poll_loop-Came :
      (f : ℕ) (c : Conn) (w : World) → (let (p, c', w') = poll_loop io f c w in Came p c c')
  unfolding poll_loop
  poll_loop-Came zero c w = tt
  poll_loop-Came (suc f) c w =
      go (turn io c w).0 (turn-Follows c w) (poll_loop-Came f (turn io c w).1 (turn io c w).2) refl
    where
      go :
          (t : Turn)
          → Follows c t (turn io c w).1
          → (let (p, c', w') = poll_loop io f (turn io c w).1 (turn io c w).2 in
              Came p (turn io c w).1 c')
          → (turn io c w).0 ≡ t
          → (let (p, c', w') = poll_loop io (suc f) c w in Came p c c')
      go (return p) ok next e = rw (e, poll_loop) ok
      go again ok next e = rw (e, poll_loop) (later _ c (turn io c w).1 _ ok next)

  -- The connection once the socket was read, if there is room.
  abbrev pub received : Conn → World → Conn
  received c w =
      if ltb (length c.rx) conn_buf
      then elim (io.recv w (conn_buf - length c.rx)).0 [
        | dead ↦ c
        | got b ↦ record c { rx = c.rx ++ b }
      ]
      else c

  poll-Came :
      (c : Conn) (w : World)
      → c.allocated ≡ true
      → (let (p, c', w') = poll io c w in Came p (received c w) c')
  unfolding poll
  poll-Came c w live = elim (Bool-cases (ltb (length c.rx) conn_buf)) [
    | inr full ↦ simp (live, full) (poll_loop-Came (length c.rx + 1) c w)
    | inl less ↦ go less (io.recv w (conn_buf - length c.rx)).0 refl
  ]
    where
      go :
          ltb (length c.rx) conn_buf ≡ true
          → (r : Received) → (io.recv w (conn_buf - length c.rx)).0 ≡ r
          → (let (p, c', w') = poll io c w in Came p (received c w) c')
      go less dead e = simp (live, less, e, poll) tt
      go less (got b) e =
          simp (live, less, e, poll)
            (poll_loop-Came (length (c.rx ++ b) + 1) (record c { allocated = true; rx = c.rx ++ b })
              (io.recv w (conn_buf - length c.rx)).1)

  -- A poll of a valid connection ends within its fuel, whatever the server sends and the socket does,
  -- and leaves a connection whose buffers are within bounds. If it says that the connection is
  -- finished, the connection is closed. If it says that nothing is complete, the bytes held are an
  -- incomplete frame, and there is room to read more. If it hands up a message, that is a text or
  -- binary message of at most 2 ^ 20 bytes, and it is whole: what the connection had gathered, and the
  -- bytes of the frames that its buffer holds once the socket was read, in a row, up to the frame with
  -- the final bit, with only pings and pongs between them; what follows that frame is left in the
  -- buffer, and no message is left unfinished.
  pub poll-Came-IsValid :
      (c : Conn) (w : World)
      → IsValid c
      → c.allocated ≡ true
      → ((n : ℕ) (b : Bytes) → (io.recv w n).0 ≡ got b → length b ≤ n)
      → (let (p, c', w') = poll io c w in IsValid c' × Outcome p c' × Came p (received c w) c')
  poll-Came-IsValid c w v live short =
      let (valid, says) = poll_ok io c w v live short in (valid, says, poll-Came c w live)
