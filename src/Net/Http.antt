-- ===== src/Net/Http.antt =====
-- The one-shot HTTP request of src/ff-net.c. curl and `realloc` are parameters; `transfer` gives the
-- pieces of the answer as curl hands them to `on_body`, and how the request ends if every piece is
-- taken. A piece that is not taken ends it with curl's own error.
pub mod Whole
use obs_foxfire.Twitch.Api.{Answer, failed, answered, Request}
use obs_foxfire.Prelude.{
  ltb, ◌==◌, if◌then◌else◌, length, Bytes, codes, ℕ, ◌+◌, ◌*◌, ◌^◌, Bool, true, false, not, Option,
  none, some, List, [], ◌∷◌, ◌++◌, given,
}
use obs_foxfire.Prelude.Int.{ℤ}

-- What `curl_easy_setopt` is told.
pub record Setup : Type 0 where
  pub request : Request
  pub timeout : ℕ
  pub no_signal : Bool
  pub follow : Bool

pub record Client : Type 1 where
  pub World : Type 0
  pub Handle : Type 0
  pub easy_init : World → Option Handle × World
  pub append_header : World → Bytes → Bool × World
  pub free_headers : World → World
  pub transfer : World → Handle → Setup → List Bytes × Option Bytes × World
  pub write_error : Bytes
  pub alloc : World → ℕ → Bool × World
  pub response_code : World → Handle → ℤ
  pub cleanup : World → Handle → World

-- `struct sink`: nothing, or the bytes that `p` holds.
abbrev pub Sink : Type 0
Sink = Option Bytes

abbrev pub kept : Sink → Bytes
kept s = given s [] (λ t. t)

abbrev pub body_limit : ℕ
body_limit = 4 * 2 ^ 20

module _ (client : Client) where
  open client use {
    World, Handle, easy_init, append_header, free_headers, transfer, write_error, alloc,
    response_code, cleanup,
  }

  -- `on_body`: the number of bytes taken. The sums of `size_t` do not wrap, for a piece fits in memory.
  unfoldable pub on_body : World → Sink → Bytes → ℕ × Sink × World
  on_body w s piece =
      let n = length (kept s) + length piece in
      if ltb body_limit n
      then (0, s, w)
      else (let (got, w') = alloc w (n + 1) in
          if got then (length piece, some (kept s ++ piece), w') else (0, s, w'))

  -- What becomes of the pieces: curl stops at one that is not taken whole.
  unfoldable pub take_pieces : World → Sink → List Bytes → Bool × Sink × World
  take_pieces w s [] = (true, s, w)
  take_pieces w s (piece ∷ pieces) =
      let (taken, s', w') = on_body w s piece in
      let rest = take_pieces w' s' pieces in if taken == length piece then rest else (false, s', w')

  -- `curl_easy_perform`: the error, if any.
  unfoldable pub perform : World → Handle → Setup → Option Bytes × Sink × World
  perform w h setup =
      let (pieces, ending, w1) = transfer w h setup in
      let (ok, s, w2) = take_pieces w1 none pieces in
      (if ok then ending else some write_error, s, w2)

  -- The loop over the headers.
  unfoldable pub append_headers : World → List Bytes → Bool × World
  append_headers w [] = (true, w)
  append_headers w (h ∷ hs) =
      let (ok, w1) = append_header w h in
      let rest = append_headers w1 hs in if ok then rest else (false, w1)

  unfoldable pub drop_headers : List Bytes → World → World
  drop_headers [] w = w
  drop_headers (h ∷ hs) w = free_headers w

  unfoldable pub set_up : Request → Setup
  set_up r = record { request = r; timeout = 30; no_signal = true; follow = false }

  unfoldable pub finish_request : World → Handle → Request → Option Bytes → Sink → Answer × World
  finish_request w h r ending s = (
    given ending (answered (response_code w h) s)
        (λ why. failed (r.method ++ (b' ' ∷ (r.url ++ (codes ": " ++ why))))),
    cleanup (drop_headers r.headers w) h,
  )

  unfoldable pub with_handle : World → Handle → Request → Answer × World
  with_handle w h r =
      let (ok, w1) = append_headers w r.headers in
      if not ok
      then (
        failed (codes "out of memory building the request headers"),
        cleanup (free_headers w1) h,
      )
      else (let (ending, s, w2) = perform w1 h (set_up r) in finish_request w2 h r ending s)

  -- `ff_http_request`
  unfoldable pub http_request : World → Request → Answer × World
  http_request w r =
      let (handle, w1) = easy_init w in
      given handle (failed (codes "curl_easy_init failed"), w1) (λ h. with_handle w1 h r)
