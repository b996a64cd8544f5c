-- ===== src/Session/Subscribing.antt =====
-- The subscriptions are asked for once, however often the session reconnects.
use obs_foxfire.Queue.{Event}
use obs_foxfire.EventSub.{Json, Result, welcome, reconnect, handle}
use obs_foxfire.Prelude.{if◌then◌else◌, Bytes, ℕ, ◌+◌, ◌≤◌, ◌≡◌, Bool, true, List, [], ◌∷◌, arith}
use obs_foxfire.Prelude.Int.{ℤ, pos}
use obs_foxfire.Session.{
  opened, idle, decide, on_message, on_subscribed, adopt, Session, Step, nothing, subscribe,
}

-- What happens to a session: a message, silence, a new socket, and a replacement that takes over.
pub data Happening : Type 0 where
  got : Bytes → Happening
  silence socket_up : Happening
  replaced : Session → Happening

-- The session once its step is acted on: a subscribe step has `accepted` of 7 types taken.
pub after : Step → Session → ℤ → Session
after subscribe s accepted = (on_subscribed s accepted (pos 7)).1
after _ s accepted = s

-- One turn of the loop of `run_once` at the time `now`: what is decided, and the session after it.
pub turn : Json → Session → Happening → ℤ → ℤ → Event → Step × Session
turn j s (got json) now accepted out =
    let (step, s', out') = on_message j s json now out in (step, after step s' accepted)
turn j s silence now accepted out = idle s now
turn j s socket_up now accepted out = (nothing, opened s now)
turn j s (replaced pending) now accepted out = (nothing, adopt s pending now)

-- A run: each happening with its time, the types accepted, and what `*out` held.
abbrev pub Run : Type 0
Run = List (Happening × ℤ × ℤ × Event)

pub asks : Step → ℕ
asks subscribe = 1
asks _ = 0

pub count_asks : Json → Session → Run → ℕ
count_asks j s [] = 0
count_asks j s ((h, now, accepted, out) ∷ rest) =
    let (step, s') = turn j s h now accepted out in asks step + count_asks j s' rest

decide_cases :
    (s : Session) (r : Result) (now : ℤ)
    → (asks (decide s r now).0 + (if s.subscribed then 1 else 0) ≤ 1)
      × ((decide s r now).1.subscribed ≡ s.subscribed)
unfolding decide asks
decide_cases s welcome now = ground arith
decide_cases s reconnect now = ground arith
decide_cases s _ now = ground arith

subscribed-on_subscribed : (s : Session) (a t : ℤ) → (on_subscribed s a t).1.subscribed ≡ true
unfolding on_subscribed
subscribed-on_subscribed s a t = ground arith

subscribed-idle :
    (s : Session) (now : ℤ) → ((idle s now).1.subscribed ≡ s.subscribed) × (asks (idle s now).0 ≡ 0)
unfolding idle asks
subscribed-idle s now = ground arith

after_step :
    (st : Step) (s' : Session) (a : ℤ) (b : Bool)
    → asks st + (if b then 1 else 0) ≤ 1
    → s'.subscribed ≡ b
    → asks st + (if b then 1 else 0) ≤ (if (after st s' a).subscribed then 1 else 0)
unfolding after asks
after_step subscribe s' a b h e = ground (arith, subscribed-on_subscribed s' a (pos 7))
after_step _ s' a b h e = ground arith

-- A subscribed session never asks, and stays subscribed; one that asks becomes subscribed.
turn_lem :
    (j : Json) (s : Session) (h : Happening) (now accepted : ℤ) (out : Event)
    → (let (step, s') = turn j s h now accepted out in
        asks step + (if s.subscribed then 1 else 0) ≤ (if s'.subscribed then 1 else 0))
unfolding turn on_message
turn_lem j s (got json) now accepted out =
    let (r, es', out') = handle j s.es json out in
    let s0 = record s { es = es'; last_message = now; reason = [] } in
    let (few, same) = decide_cases s0 r now in
    after_step (decide s0 r now).0 (decide s0 r now).1 accepted s.subscribed few same
turn_lem j s silence now accepted out = ground (arith, subscribed-idle s now)
turn_lem j s socket_up now accepted out = unfold opened asks in ground arith
turn_lem j s (replaced p) now accepted out = unfold adopt asks in ground arith

count_lem :
    (j : Json) (s : Session) (run : Run) → count_asks j s run + (if s.subscribed then 1 else 0) ≤ 1
unfolding count_asks
count_lem j s [] = ground arith
count_lem j s ((h, now, accepted, out) ∷ rest) =
    ground
      (arith, turn_lem j s h now accepted out, count_lem j (turn j s h now accepted out).1 rest)

-- Through any run of messages, silences, new sockets and replacements, the subscriptions are asked
-- for at most once, and not at all if the session is subscribed when the run begins.
pub subscribe_once :
    (j : Json) (s : Session) (run : Run) → count_asks j s run ≤ (if s.subscribed then 0 else 1)
subscribe_once j s run = ground (arith, count_lem j s run)
