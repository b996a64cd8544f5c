-- ===== src/Tests/Workers.antt =====
-- The worker of the Twitch feed, over a simulated world.
use obs_foxfire.EventSub.{Json, subs}
use obs_foxfire.Queue.{zero_event}
use obs_foxfire.Twitch.Panel.{Panel, off}
use obs_foxfire.Twitch.Api.{Token, fine, trouble, slow_down, renewed, rejected}
use obs_foxfire.Twitch.Worker.{Services, Arrival, arrived, quiet}
use obs_foxfire.Twitch.Worker.Run.{run_once}
use obs_foxfire.Twitch.Worker.Loop.{stuck, worker}
use obs_foxfire.Twitch.Worker.Keeps.{Frame}
use obs_foxfire.Twitch.Worker.Once.{run_once-subscribe, run_once_keeps}
use obs_foxfire.Twitch.Worker.Idle.{IsIdle, Idles, worker_idle}
use obs_foxfire.Prelude.{
  if◌then◌else◌, length, drop, Bytes, codes, is_empty, bytes_eq, ℕ, ◌+◌, ◌≡◌, refl, ◌≢◌, ◌⊎◌, Bool,
  true, false, none, some, List, [], ◌∷◌, ◌++◌, arith,
}
use obs_foxfire.Prelude.Int.{pos}

-- The messages that wait on the socket, and how often Twitch was asked for what.
record Sim : Type 0 where
  panel : Panel
  asked : ℕ
  tried : ℕ
  stored : Bool
  inbox : List Bytes

-- A reader as in the tests of the sessions: every object is its text, other strings are the key.
abbrev reader : Json
reader = record {
  Data = Bytes;
  from_json = λ s. (if is_empty s then none else some s);
  get_obj = λ d key. some d;
  get_string = λ d key. (if bytes_eq key (codes "message_type") then d else key);
  get_int = λ d key. pos 10;
  get_bool = λ d key. false;
  module_text = λ key. key;
}

abbrev token : Token
token = record { access = codes "a"; refresh = codes "r"; expires_at = pos 0; scope_list = [] }

abbrev next_arrival : List Bytes → Arrival
next_arrival [] = quiet
next_arrival (m ∷ rest) = arrived m

abbrev sim : Services
sim = record {
  World = Sim;
  Socket = ℕ;
  json = reader;
  text = λ key. key;
  replace = λ s mark a. s ++ a;
  unset = zero_event;
  locked = λ f w. ((f w.panel).0, record w { panel = (f w.panel).1 });
  report = λ w s line. w;
  emit = λ w ev. w;
  time = λ w. (pos 100, w);
  slice = λ w. w;
  alloc = λ w n. (true, w);
  token_load = λ w. ((if w.stored then some token else none), w);
  token_save = λ w t. (true, w);
  token_forget = λ w. record w { stored = false };
  device_start = λ w id. (trouble [], w);
  device_poll = λ w id code. (slow_down, w);
  refresh = λ w id t. (renewed token, record w { tried = w.tried + 1 });
  user_id = λ w id access. (fine (codes "7", codes "name"), w);
  subscribe = λ w id access sub user session_id. (fine (pos 202), record w { asked = w.asked + 1 });
  open_socket = λ w url. (fine 0, w);
  poll = λ w s. (next_arrival w.inbox, s, record w { inbox = drop 1 w.inbox });
  error_of = λ s. [];
  wait = λ w s n. w;
  close = λ w s. w;
  close_with = λ w s n. w;
}

abbrev panel : Panel
panel = record {
  running = true;
  enabled = true;
  want_sign_in = false;
  want_sign_out = false;
  client_id = codes "id";
  state = off;
  line = [];
  code = [];
  verify_url = [];
}

-- A welcome waits on the socket, and another one after a reconnect.
abbrev begun : Sim
begun = record {
  panel = panel;
  asked = 0;
  tried = 0;
  stored = true;
  inbox =
      codes "session_welcome"
      ∷ codes "session_reconnect"
      ∷ codes "session_welcome"
      ∷ codes "session_welcome"
      ∷ [];
}

-- A property of one field that the others' operations leave.
asked_frame : (n : ℕ) → Frame sim (λ w. w.asked ≡ n)
asked_frame n = record {
  section = λ f w p. p;
  reported = λ w s line p. p;
  emitted = λ w ev p. p;
  timed = λ w p. p;
  allocated = λ w k p. p;
  loaded = λ w p. p;
  saved = λ w t p. p;
  refreshed = λ w id t p. p;
  identified = λ w id access p. p;
  made = λ w url p. p;
  polled = λ w s p. p;
  waited = λ w s k p. p;
  closed = λ w s p. p;
  closed_with = λ w s k p. p;
}

stored_frame : Frame sim (λ w. w.stored ≡ true)
stored_frame = record {
  section = λ f w p. p;
  reported = λ w s line p. p;
  emitted = λ w ev p. p;
  timed = λ w p. p;
  allocated = λ w k p. p;
  loaded = λ w p. p;
  saved = λ w t p. p;
  refreshed = λ w id t p. p;
  identified = λ w id access p. p;
  made = λ w url p. p;
  polled = λ w s p. p;
  waited = λ w s k p. p;
  closed = λ w s p. p;
  closed_with = λ w s k p. p;
}

run_once-subscribe_example :
    ((run_once sim 6 begun).1.asked ≡ 0) ⊎ ((run_once sim 6 begun).1.asked ≡ 0 + length subs)
run_once-subscribe_example =
    run_once-subscribe sim (λ w. w.asked) asked_frame (λ w. refl)
      (λ w id access sub user session_id. refl) 6 begun

renewed_ne : (t : Token) (why : Bytes) → renewed t ≢ rejected why
renewed_ne t why e = ground (arith, e)

run_once_keeps_example : (run_once sim 6 begun).1.stored ≡ true
run_once_keeps_example =
    run_once_keeps sim (λ w. w.stored ≡ true) stored_frame (λ w id access sub user session_id p. p)
      (λ w id t why p. renewed_ne token why) 6 begun refl

-- Nobody has asked Twitch for anything.
abbrev IsUntried : Sim → Type 0
IsUntried w = IsIdle w.panel × (w.tried ≡ 0)

untried : Idles sim IsUntried
untried = record {
  section = λ f w keeps p. (keeps w.panel p.0, p.1);
  seen = λ f w p. (w.panel, (p.0, refl));
  reported = λ w s line p. p;
  slept = λ w p. p;
  forgotten = λ w p. p;
}

worker_idle_example :
    ((worker sim 9 6 (pos 0) begun).0 ≢ stuck) × IsUntried (worker sim 9 6 (pos 0) begun).1
worker_idle_example = worker_idle sim IsUntried untried 9 6 (pos 0) begun ((refl, refl), refl)

-- The first welcome is answered with all the subscriptions, and the one after the changeover with none.
asks_once : (run_once sim 6 begun).1.asked ≡ length subs
unfolding run_once obs_foxfire.Twitch.Worker.Run.of_renewal obs_foxfire.Twitch.Worker.Run.with_token
    obs_foxfire.Twitch.Worker.Run.run obs_foxfire.Twitch.Worker.Run.of_turn
    obs_foxfire.Twitch.Worker.Run.of_opened obs_foxfire.Twitch.Worker.Run.open_link
    obs_foxfire.Twitch.Worker.Run.close_link obs_foxfire.Twitch.Worker.Turn.turn
    obs_foxfire.Twitch.Worker.Turn.poll_net obs_foxfire.Twitch.Worker.Turn.heard_net
    obs_foxfire.Twitch.Worker.Turn.on_quiet obs_foxfire.Twitch.Worker.Turn.on_step
    obs_foxfire.Twitch.Worker.Turn.act obs_foxfire.Twitch.Worker.Turn.open_replacement
    obs_foxfire.Twitch.Worker.Turn.close_replacement obs_foxfire.Twitch.Worker.Turn.end_turn
    obs_foxfire.Twitch.Worker.Turn.subscribe_all obs_foxfire.Twitch.Worker.Turn.show_live
    obs_foxfire.Twitch.Worker.Turn.subscribe_each obs_foxfire.Twitch.Worker.Turn.poll_replacement
    obs_foxfire.Twitch.Worker.Turn.heard_replacement obs_foxfire.Twitch.Worker.Turn.hear
    obs_foxfire.Twitch.Worker.Turn.move_over obs_foxfire.Twitch.Worker.Turn.check_handover
    obs_foxfire.Twitch.Worker.set_text obs_foxfire.Twitch.Worker.set_state
    obs_foxfire.Twitch.Worker.show_line obs_foxfire.Twitch.Panel.set_line obs_foxfire.Session.init
    obs_foxfire.Session.opened obs_foxfire.Session.on_message obs_foxfire.Session.decide
    obs_foxfire.Session.on_subscribed obs_foxfire.Session.welcomed obs_foxfire.Session.adopt
    obs_foxfire.Session.init_replacement obs_foxfire.Session.idle obs_foxfire.EventSub.handle
    obs_foxfire.EventSub.on_session obs_foxfire.EventSub.on_message obs_foxfire.EventSub.spell
    obs_foxfire.Prelude.Int.◌-ℤ◌ obs_foxfire.Prelude.Int.to_int32 obs_foxfire.Session.is_stale
    obs_foxfire.Prelude.Int.◌+ℤ◌ obs_foxfire.Session.patience
asks_once = refl
