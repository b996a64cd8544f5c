-- ===== src/Net/Http/Whole.antt =====
-- What the body of an answer is, in src/ff-net.c.
use obs_foxfire.Twitch.Api.{failed, answered, Request}
use obs_foxfire.Net.Http.{
  Client, Sink, kept, body_limit, on_body, take_pieces, perform, append_headers, set_up,
  finish_request, with_handle, http_request,
}
use obs_foxfire.Prelude.{
  ltb, ◌==◌, if◌then◌else◌, Bool-cases, Option-cases, length, length-append, Bytes, ℕ, ◌+◌, ◌≤◌,
  ◌≡◌, refl, sym, ap, ◌∙◌, inl, inr, Bool, true, false, Option, none, some, List, [], ◌∷◌, ◌++◌,
  append-nil, append_assoc, arith, if_both, given,
}
use obs_foxfire.Prelude.Int.{ℤ}

abbrev pub joined : List Bytes → Bytes
joined [] = []
joined (c ∷ cs) = c ++ joined cs

module _ (client : Client) where
  open client use {World, Handle, transfer, easy_init, alloc}

  abbrev Took : Sink → Bytes → ℕ × Sink × World → Type 0
  Took s piece (taken, s', w) =
      (taken == length piece) ≡ true → (kept s' ≡ kept s ++ piece) × (length (kept s') ≤ body_limit)

  untaken :
      (s : Sink) (piece : Bytes) (w : World) → length (kept s) ≤ body_limit → Took s piece (0, s, w)
  untaken s [] w fits h = (sym (append-nil (kept s)), fits)
  untaken s (c ∷ piece) w fits h = absurd (ground arith)

  on_body-Took :
      (w : World) (s : Sink) (piece : Bytes)
      → length (kept s) ≤ body_limit
      → Took s piece (on_body client w s piece)
  unfolding on_body
  on_body-Took w s piece fits =
      let n = length (kept s) + length piece in
      let (got, w') = alloc w (n + 1) in
      elim (Bool-cases (ltb body_limit n)) [
        | inl over ↦ rw (over, on_body) (untaken s piece w fits)
        | inr room ↦
            rw (room, on_body)
              (if_both (Took s piece) got (length piece, some (kept s ++ piece), w') (0, s, w')
                (λ h. (refl, ground (arith, length-append (kept s) piece)))
                (untaken s piece w' fits))
      ]

  abbrev Taken : Sink → Bytes → Bool × Sink × World → Type 0
  Taken s more (ok, s', w) =
      ok ≡ true → (kept s' ≡ kept s ++ more) × (length (kept s') ≤ body_limit)

  take_pieces-Taken :
      (w : World) (s : Sink) (pieces : List Bytes)
      → length (kept s) ≤ body_limit
      → Taken s (joined pieces) (take_pieces client w s pieces)
  unfolding take_pieces
  take_pieces-Taken w s [] fits = λ h. (sym (append-nil (kept s)), fits)
  take_pieces-Taken w s (piece ∷ pieces) fits =
      let (taken, s', w') = on_body client w s piece in
      elim (Bool-cases (taken == length piece)) [
        | inr short ↦ rw (short, take_pieces) (λ h. cc)
        | inl whole ↦
            rw (whole, take_pieces)
              (λ h.
                let (same, fits') = on_body-Took w s piece fits whole in
                let (more, fits'') = take_pieces-Taken w' s' pieces fits' h in
                (
                  more
                      ∙ ap (λ t. t ++ joined pieces) same
                      ∙ append_assoc (kept s) piece (joined pieces),
                  fits'',
                ))
      ]

  -- What an answer comes from: the request was sent as it was set up, it ended well, and the body is
  -- what curl handed over.
  pub data Whole (r : Request) (body : Sink) : Type 0 where
    whole :
        (w : World) (h : Handle) (pieces : List Bytes) (w' : World)
        → transfer w h (set_up client r) ≡ (pieces, none, w')
        → kept body ≡ joined pieces
        → length (kept body) ≤ body_limit
        → Whole r body

  same_body : {a b : Sink} {m n : ℤ} → answered m a ≡ answered n b → a ≡ b
  same_body h = cc

  -- The ways in which a transfer and the taking of its pieces end.
  of_ending :
      (w : World) (h : Handle) (r : Request) (pieces : List Bytes) (ending : Option Bytes)
      (w1 w2 : World) (ok : Bool) (s body : Sink) (status code : ℤ) (text : Bytes → Bytes)
      → transfer w h (set_up client r) ≡ (pieces, ending, w1)
      → Taken none (joined pieces) (ok, s, w2)
      → given
          (if ok then ending else some client.write_error)
          (answered code s)
          (λ why. failed (text why))
        ≡ answered status body
      → Whole r body
  of_ending w h r pieces ending w1 w2 false s body status code text sent taken e = absurd (cc)
  of_ending w h r pieces (some why) w1 w2 true s body status code text sent taken e = absurd (cc)
  of_ending w h r pieces none w1 w2 true s body status code text sent taken e =
      let (same, fits) = taken refl in
      let eq = same_body e in whole w h pieces w1 sent (rw (← eq) same) (rw (← eq) fits)

  -- An answer of ff_http_request has for its body exactly the pieces that curl handed over, one after
  -- the other, and at most 4 MiB of them, in a transfer of the request as it was given, with the time
  -- limit and without following redirects, in which curl reported no error.
  pub http_request-Whole :
      (w : World) (r : Request) (status : ℤ) (body : Sink)
      → (http_request client w r).0 ≡ answered status body
      → Whole r body
  unfolding http_request with_handle perform finish_request
  http_request-Whole w r status body e = elim (Option-cases (easy_init w).0) [
    | inl no_handle ↦ absurd (cc (rw (no_handle, http_request) at e))
    | inr (h, found) ↦
        let (ok, w1) = append_headers client (easy_init w).1 r.headers in
        elim (Bool-cases ok) [
          | inr lost ↦ absurd (cc (rw (found, http_request, with_handle, lost) at e))
          | inl appended ↦
              let (pieces, ending, w2) = transfer w1 h (set_up client r) in
              let (taken, s, w3) = take_pieces client w2 none pieces in
              of_ending w1 h r pieces ending w2 w3 taken s body status _ _ refl
                (take_pieces-Taken w2 none pieces (omega arith))
                (rw (found, http_request, with_handle, appended) at e)
        ]
  ]
