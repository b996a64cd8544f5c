-- ===== src/Ws/Conn/Sending.antt =====
-- `ff_ws_conn_send`: its loop ends, and what it reports is what went out.
use obs_foxfire.Prelude.{
  Option-cases, length, take, drop, length-drop, take-append-drop, Bytes, IsBytes, ℕ, zero, suc,
  ◌+◌, ◌-◌, ◌*◌, ◌^◌, ◌≤◌, ◌<◌, ◌≡◌, refl, ap, ◌∙◌, ◌≢◌, inl, inr, Bool, true, some, [], ◌∷◌, ◌++◌,
  append-nil, append_assoc, arith, drop_nil, drop-drop,
}
use obs_foxfire.Prelude.Int.{pos, negsuc, ℤ-cases}
use obs_foxfire.Ws.Conn.{
  stalled, send_loop, send_fuel, finish_send, conn_send, Io, Conn, Sent, all_sent, died, no_fuel,
}
use obs_foxfire.Ws.Frame.{Opcode, build}
use obs_foxfire.Ws.Frame.Client.{read_client_frame, read-build}

module _ (io : Io) where
  open io use {World, send, sleep}

  -- Whatever the socket answers, the loop ends by its own tests within the fuel that it is given.
  send_loop-ends :
      (f : ℕ) (w : World) (out : Bytes) (sent idle : ℕ)
      → (length out - sent) * 202 + (202 - idle) ≤ f
      → idle ≤ 200
      → (send_loop io f w out sent idle).0 ≢ no_fuel
  unfolding send_loop
  send_loop-ends zero w out sent idle fuel few = absurd (omega arith)
  send_loop-ends (suc f) w out sent idle fuel few = elim (ℤ-cases (send w (drop sent out)).0) [
    | inl (n, e) ↦ ground (arith, e)
    | inr (inl e) ↦
        ground (arith, e, send_loop-ends f (sleep (send w (drop sent out)).1 5) out sent (idle + 1))
    | inr (inr (k, e)) ↦
        ground (arith, e, send_loop-ends f (send w (drop sent out)).1 out (sent + suc k) 0)
  ]

  -- The loop of a send, which starts at the first byte with no empty turn behind it, ends by its own
  -- tests, whatever the socket answers.
  pub send_loop_total :
      (w : World) (out : Bytes) → (send_loop io (send_fuel io (length out)) w out 0 0).0 ≢ no_fuel
  send_loop_total w out =
      send_loop-ends (send_fuel io (length out)) w out 0 0 (omega arith) (omega arith)

drop_end : (n : ℕ) (xs : Bytes) → length xs ≤ n → drop n xs ≡ []
drop_end n [] h = drop_nil n
drop_end zero (x ∷ xs) h = absurd (omega arith)
drop_end (suc n) (x ∷ xs) h = drop_end n xs (omega arith)

read-build_key :
    (op : Opcode) (payload key : Bytes) (cap : ℕ) (f : Bytes)
    → (length key ≡ 4) × IsBytes key
    → IsBytes payload
    → length payload < 2 ^ 63
    → build op payload key cap ≡ some f
    → read_client_frame f ≡ some (op, payload)
read-build_key op payload [] cap f k p s = absurd (omega arith)
read-build_key op payload (a ∷ []) cap f k p s = absurd (omega arith)
read-build_key op payload (a ∷ b ∷ []) cap f k p s = absurd (omega arith)
read-build_key op payload (a ∷ b ∷ c ∷ []) cap f k p s = absurd (omega arith)
read-build_key op payload (a ∷ b ∷ c ∷ d ∷ []) cap f k p s =
    read-build op payload a b c d cap f k.1 p s
read-build_key op payload (a ∷ b ∷ c ∷ d ∷ e ∷ r) cap f k p s = absurd (omega arith)

-- What a socket promises, with the bytes that it has put on the wire: a call takes a piece off the
-- front of what it is given, or nothing.
pub record Wire (io : Io) : Type 0 where
  pub sent : io.World → Bytes
  pub moved :
      (w : io.World) (b : Bytes) (k : ℕ)
      → (io.send w b).0 ≡ pos k
      → (k ≤ length b) × (sent (io.send w b).1 ≡ sent w ++ take k b)
  pub unmoved :
      (w : io.World) (b : Bytes) (n : ℕ)
      → (io.send w b).0 ≡ negsuc n
      → sent (io.send w b).1 ≡ sent w
  pub asleep : (w : io.World) (n : ℕ) → sent (io.sleep w n) ≡ sent w
  pub random_quiet : (w : io.World) (n : ℕ) → sent (io.random w n).1 ≡ sent w
  pub alloc_quiet : (w : io.World) (n : ℕ) → sent (io.alloc w n).1 ≡ sent w
  pub random_bytes :
      (w : io.World) (n : ℕ) (b : Bytes) → (io.random w n).0 ≡ some b → (length b ≡ n) × IsBytes b
  pub recv_quiet : (w : io.World) (n : ℕ) → sent (io.recv w n).1 ≡ sent w

module _ (io : Io) (wire : Wire io) where
  open io use {World, send, sleep, random, alloc}

  -- The loop reports success only when all that was left is on the wire, in order.
  send_loop_complete :
      (f : ℕ) (w : World) (out : Bytes) (start idle : ℕ)
      → start ≤ length out
      → (send_loop io f w out start idle).0 ≡ all_sent
      → wire.sent (send_loop io f w out start idle).1 ≡ wire.sent w ++ drop start out
  unfolding send_loop
  send_loop_complete zero w out start idle h r = cc
  send_loop_complete (suc f) w out start idle h r = elim (ℤ-cases (send w (drop start out)).0) [
    | inl (n, e) ↦ ground (arith, e, drop_end start out, append-nil (wire.sent w))
    | inr (inl e) ↦ ground (
      arith,
      e,
      drop_end start out,
      append-nil (wire.sent w),
      wire.moved w (drop start out) 0 e,
      wire.asleep (send w (drop start out)).1 5,
      send_loop_complete f (sleep (send w (drop start out)).1 5) out start (idle + 1),
    )
    | inr (inr (k, e)) ↦ ground (
      arith,
      e,
      drop_end start out,
      append-nil (wire.sent w),
      wire.moved w (drop start out) (suc k) e,
      length-drop start out,
      append_assoc (wire.sent w) (take (suc k) (drop start out)) (drop (start + suc k) out),
      take-append-drop (suc k) (drop start out),
      drop-drop start (suc k) out,
      send_loop_complete f (send w (drop start out)).1 out (start + suc k) 0,
    )
  ]

  sent_of_finish :
      (c : Conn) (n : ℕ) (s : Sent × World)
      → (finish_send io c n s).0 ≡ true
      → (s.0 ≡ all_sent) × (finish_send io c n s ≡ (true, c, s.1))
  unfolding finish_send
  sent_of_finish c n (all_sent, w) h = (refl, refl)
  sent_of_finish c n (died, w) h = cc
  sent_of_finish c n (no_fuel, w) h = cc
  sent_of_finish c n (stalled k, w) h = cc

  -- When `ff_ws_conn_send` returns true, the wire holds what it held before and one more frame, which
  -- a server reads as the opcode and the payload that were to be sent, and the connection is as it
  -- was.
  pub conn_send-true :
      (c : Conn) (w : World) (op : Opcode) (payload : Bytes)
      → IsBytes payload
      → length payload < 2 ^ 63
      → (conn_send io c w op payload).0 ≡ true
      → (f : Bytes) × (wire.sent (conn_send io c w op payload).2 ≡ wire.sent w ++ f)
        × (read_client_frame f ≡ some (op, payload))
        × ((conn_send io c w op payload).1 ≡ c)
  conn_send-true c w op payload p small h = elim (Option-cases (random w 4).0) [
    | inl e ↦ unfold conn_send in ground (arith, e)
    | inr (key, e) ↦ elim (Option-cases (build op payload key (length payload + 16))) [
      | inl b ↦ unfold conn_send in ground (arith, e, b)
      | inr (out, b) ↦
          let w1 = (random w 4).1 in
          let w2 = (alloc w1 (length payload + 16)).1 in
          let step : conn_send io c w op payload
              ≡ finish_send io c (length out)
                  (send_loop io (send_fuel io (length out)) w2 out 0 0) =
            unfold conn_send in ground (arith, e, b) in
          let (done, same) =
            sent_of_finish c (length out) (send_loop io (send_fuel io (length out)) w2 out 0 0)
              (rw step at h) in
          (
            out,
            ap (λ (r : Bool × Conn × World). wire.sent r.2) (step ∙ same)
                ∙ send_loop_complete (send_fuel io (length out)) w2 out 0 0 (omega arith) done
                ∙ rw (wire.alloc_quiet w1 (length payload + 16), wire.random_quiet w 4),
            read-build_key op payload key (length payload + 16) out (wire.random_bytes w 4 key e) p
                small b,
            ap (λ (r : Bool × Conn × World). r.1) (step ∙ same),
          )
    ]
  ]
