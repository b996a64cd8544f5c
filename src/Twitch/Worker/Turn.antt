-- ===== src/Twitch/Worker/Turn.antt =====
-- A turn of the inner loop of `run_once`, src/ff-twitch.c: one socket and, during a changeover, its
-- replacement.
use obs_foxfire.EventSub.{Sub, subs}
use obs_foxfire.Queue.{Event}
use obs_foxfire.Session.{
  Step, nothing, subscribe, emit, reconnect_now, drop_it, note, Session, opened, idle, on_message,
  on_subscribed, welcomed, handover_expired, init_replacement, adopt,
}
use obs_foxfire.Prelude.Text.{decimal_ℤ}
use obs_foxfire.Twitch.Panel.{live, retrying}
use obs_foxfire.Twitch.Api.{fine, trouble}
use obs_foxfire.Twitch.Worker.{
  Services, Arrival, lost, quiet, arrived, read_running, read_enabled, set_state, set_text,
}
use obs_foxfire.Prelude.{
  if◌then◌else◌, length, Bytes, codes, clip, cstr, ℕ, ◌+◌, Bool, true, false, Option, none, some,
  List, [], ◌∷◌,
}
use obs_foxfire.Prelude.Int.{ℤ, pos, ◌-ℤ◌, ltb_ℤ}

-- The variables of the loops of `run_once`.
pub record Link (Socket : Type 0) : Type 0 where
  pub session : Session
  pub net : Socket
  pub replacement : Option (Socket × Session)
  pub started : ℤ
  pub ran_long : Bool

-- A turn goes on to its next part, to the next turn, or leaves the loop; the flag is `reconnecting`.
pub data Turn (Socket : Type 0) : Type 0 where
  stays next : Link Socket → Turn Socket
  leaves : Link Socket → Bool → Turn Socket

-- The sign-in that a connection uses, and who it is for.
pub record Account : Type 0 where
  pub client_id : Bytes
  pub access : Bytes
  pub user : Bytes
  pub login : Bytes

module _ (services : Services) where
  open services use {
    World, Socket, json, text, unset, locked, time, alloc, open_socket, poll, error_of, wait, close,
    close_with,
  }

  -- Whether the changeover has taken too long.
  unfoldable pub check_handover : Link Socket → Socket × Session → World → Turn Socket × World
  check_handover link (p, ps) w =
      let (now, w1) = time w in
      if handover_expired link.session now
      then (leaves (record link { replacement = none }) true, close w1 p)
      else (stays (record link { replacement = some (p, ps) }), w1)

  -- What follows a message from the replacement: the move to it, once it is welcomed.
  unfoldable pub move_over : Link Socket → Socket × Session → World → Turn Socket × World
  unfolding check_handover
  move_over link (p, ps) w =
      let w1 = close_with w link.net 1000 in
      let (now, w2) = time w1 in
      let (started, w3) = time w2 in
      let stay = check_handover link (p, ps) w in
      if welcomed ps
      then (
        next (record link {
          session = adopt link.session ps now;
          net = p;
          replacement = none;
          started = started;
        }),
        w3,
      )
      else stay

  -- The session of a socket that a payload came from, with the copy of the payload that `malloc` may refuse.
  unfoldable pub hear : Session → Bytes → World → Option (Step × Session × Event) × World
  hear s payload w =
      let (room, w1) = alloc w (length payload + 1) in
      let (now, w2) = time w1 in
      if room then (some (on_message json s (cstr payload) now unset), w2) else (none, w1)

  -- The part of a turn that reads the replacement.
  unfoldable pub heard_replacement :
      Link Socket → Socket × Session → Arrival → World → Turn Socket × World
  unfolding hear move_over check_handover
  heard_replacement link (p, ps) lost w = (stays (record link { replacement = none }), close w p)
  heard_replacement link (p, ps) quiet w = check_handover link (p, ps) w
  heard_replacement link (p, ps) (arrived payload) w =
      let (heard, w1) = hear ps payload w in
      elim heard [
        | none ↦ move_over link (p, ps) w1
        | some (step, ps', ev) ↦ move_over link (p, ps') w1
      ]

  unfoldable pub poll_replacement :
      Link Socket → Option (Socket × Session) → World → Turn Socket × World
  unfolding heard_replacement
  poll_replacement link none w = (stays link, w)
  poll_replacement link (some (p, ps)) w =
      let (a, p', w1) = poll w p in heard_replacement link (p', ps) a w1

  -- The subscriptions, one after the other: how many are accepted.
  unfoldable pub subscribe_each : List Sub → Account → Bytes → ℕ → World → ℕ × World
  subscribe_each [] account session_id ok w = (ok, w)
  subscribe_each (sub ∷ rest) account session_id ok w =
      let (o, w') =
        services.subscribe w account.client_id account.access sub account.user session_id in
      subscribe_each rest account session_id (elim o [ fine status ↦ ok + 1 | trouble why ↦ ok ]) w'

  -- The line that is shown, unless the session is dropped.
  unfoldable pub show_live : Account → ℕ → Step → World → World
  unfolding set_text
  show_live account ok drop_it w = w
  show_live account ok _ w =
      set_text services live (codes "Foxfire.Twitch.Live") (some (clip 16 (decimal_ℤ (pos ok))))
        (some (clip 16 (decimal_ℤ (pos (length subs))))) (some account.login) w

  -- The branch for FF_STEP_SUBSCRIBE, which gives the step that is acted on.
  unfoldable pub subscribe_all : Account → Session → World → Step × Session × World
  unfolding subs subscribe_each show_live
  subscribe_all account s w =
      let (ok, w1) = subscribe_each subs account s.es.session_id 0 w in
      let (step, s') = on_subscribed s (pos ok) (pos (length subs)) in
      (step, s', show_live account ok step w1)

  -- The end of a turn, `if (time(NULL) - started > 60) ran_long = true`.
  unfoldable pub end_turn : Link Socket → World → Turn Socket × World
  end_turn link w =
      let (now, w') = time w in
      (
        next (
            if ltb_ℤ (pos 60) (now -ℤ link.started) then record link { ran_long = true } else link),
        w',
      )

  unfoldable pub close_replacement : Option (Socket × Session) → World → World
  close_replacement none w = w
  close_replacement (some (p, ps)) w = close w p

  -- The branch for FF_STEP_RECONNECT: the replacement is opened next to the socket in use.
  unfoldable pub open_replacement : Link Socket → World → Turn Socket × World
  unfolding close_replacement end_turn
  open_replacement link w =
      let (o, w1) = open_socket (close_replacement link.replacement w) link.session.url in
      elim o [
        | trouble why ↦ (leaves (record link { replacement = none }) true, w1)
        | fine p ↦
            let (now, w2) = time w1 in
            end_turn
              (record link {
                replacement = some (p, opened (init_replacement link.session.url) now);
              })
              w2
      ]

  -- What is done about a step.
  unfoldable pub act : Link Socket → Step → Event → World → Turn Socket × World
  unfolding end_turn open_replacement set_state
  act link nothing ev w = end_turn link w
  act link subscribe ev w = end_turn link w
  act link note ev w = end_turn link w
  act link emit ev w = end_turn link (services.emit w ev)
  act link reconnect_now ev w = open_replacement link w
  act link drop_it ev w = (leaves link false, set_state services retrying link.session.reason w)

  unfoldable pub on_step :
      Account → Link Socket → Step × Session × Event → World → Turn Socket × World
  unfolding subscribe_all act
  on_step account link (subscribe, s, ev) w =
      let (step, s', w') = subscribe_all account s w in
      act (record link { session = s' }) step ev w'
  on_step account link (step, s, ev) w = act (record link { session = s }) step ev w

  -- A poll that found nothing.
  unfoldable pub on_quiet : Link Socket → Step × Session → World → Turn Socket × World
  unfolding act
  on_quiet link (nothing, s) w = (next (record link { session = s }), wait w link.net 200)
  on_quiet link (step, s) w = act (record link { session = s }) step unset w

  -- The part of a turn that reads the socket in use.
  unfoldable pub heard_net : Account → Link Socket → Arrival → World → Turn Socket × World
  unfolding hear on_quiet on_step set_state
  heard_net account link lost w =
      (leaves link false, set_state services retrying (error_of link.net) w)
  heard_net account link quiet w =
      let (now, w') = time w in on_quiet link (idle link.session now) w'
  heard_net account link (arrived payload) w =
      let (heard, w1) = hear link.session payload w in
      elim heard [
        | none ↦ (
          leaves link false,
          set_state services retrying (codes "ran out of memory reading an event from Twitch") w1,
        )
        | some r ↦ on_step account link r w1
      ]

  unfoldable pub poll_net : Account → Turn Socket × World → Turn Socket × World
  unfolding heard_net
  poll_net account (next link, w) = (next link, w)
  poll_net account (leaves link again, w) = (leaves link again, w)
  poll_net account (stays link, w) =
      let (a, n', w1) = poll w link.net in heard_net account (record link { net = n' }) a w1

  -- A turn of the inner loop, with its condition.
  unfoldable pub turn : Account → Link Socket → World → Turn Socket × World
  unfolding poll_replacement poll_net
  turn account link w =
      let (running, w1) = locked read_running w in
      let (enabled, w2) = locked read_enabled w1 in
      let go = poll_net account (poll_replacement link link.replacement w2) in
      if running then (if enabled then go else (leaves link false, w2)) else (leaves link false, w1)
