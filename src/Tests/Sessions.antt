-- ===== src/Tests/Sessions.antt =====
-- Messages of Twitch's EventSub, and sessions.
use obs_foxfire.Queue.{zero_event, gift}
use obs_foxfire.EventSub.{spell, Json, event, handle, from_event, spell}
use obs_foxfire.EventSub.Messages.{Promise, handle-Promise}
use obs_foxfire.EventSub.Events.{event_facts}
use obs_foxfire.Session.{
  Session, subscribe, reconnect_now, on_message, in_handover, handover_expired, zero_es, decide,
}
use obs_foxfire.Session.Subscribing.{got, socket_up, Run, count_asks, subscribe_once}
use obs_foxfire.Session.Handover.{reconnect_window}
use obs_foxfire.Prelude.{
  if◌then◌else◌, length, Bytes, codes, is_empty, bytes_eq, ℕ, suc, ◌≤◌, ◌≡◌, refl, ◌≢◌, ◌↔◌, ◌⊎◌,
  true, false, none, some, [], ◌∷◌, arith,
}
use obs_foxfire.Prelude.Int.{pos, negsuc, ◌+ℤ◌, ◌≤ℤ◌}

-- A reader for messages that are the bare name of their type: every object is that text, every other
-- string is the key itself, and every number is 10.
abbrev reader : Json
reader = record {
  Data = Bytes;
  from_json = λ s. (if is_empty s then none else some s);
  get_obj = λ d key. some d;
  get_string = λ d key. (if bytes_eq key (codes "message_type") then d else key);
  get_int = λ d key. pos 10;
  get_bool = λ d key. false;
  module_text = λ key. key;
}

abbrev fresh : Session
fresh = record {
  es = zero_es;
  subscribed = false;
  opened = pos 100;
  handover_started = pos 0;
  last_message = pos 100;
  url = codes "wss://a";
  reason = [];
}

abbrev live : Session
live = record fresh { es = record zero_es { keepalive_secs = pos 10; session_id = codes "id" } }

abbrev broken : Session
broken = record fresh { es = record zero_es { keepalive_secs = negsuc 0 } }

welcomes : (on_message reader fresh (codes "session_welcome") (pos 101) zero_event).0 ≡ subscribe
unfolding on_message decide handle obs_foxfire.EventSub.on_message obs_foxfire.EventSub.on_session
    spell
welcomes = refl

reconnects :
    (on_message reader live (codes "session_reconnect") (pos 200) zero_event).0 ≡ reconnect_now
unfolding on_message decide handle obs_foxfire.EventSub.on_message obs_foxfire.EventSub.on_session
    spell
reconnects = refl

pos_ne : (n : ℕ) → pos (suc n) ≢ pos 0
pos_ne n h = ground (arith, h)

reconnect_window_example :
    let s' = (on_message reader live (codes "session_reconnect") (pos 200) zero_event).1 in
    (is_empty s'.url ≡ false)
    × (in_handover s' ≡ true)
    × ((handover_expired s' (pos 231) ≡ true) ↔ (pos 200 +ℤ pos 31 ≤ℤ pos 231))
reconnect_window_example =
    reconnect_window reader live (codes "session_reconnect") (pos 200) (pos 231) zero_event
      (pos_ne 199) reconnects

abbrev run : Run
run =
    (socket_up, pos 100, pos 0, zero_event)
    ∷ (got (codes "session_welcome"), pos 101, pos 7, zero_event)
    ∷ (got (codes "session_welcome"), pos 102, pos 7, zero_event)
    ∷ []

subscribe_once_example : count_asks reader fresh run ≤ 1
subscribe_once_example = subscribe_once reader fresh run

handle-Promise_example :
    let (r, s', out') = handle reader zero_es (codes "session_welcome") zero_event in
    Promise zero_es s' zero_event out' r
handle-Promise_example = handle-Promise reader zero_es (codes "session_welcome") zero_event

gifted : (from_event reader (codes "channel.subscription.gift") []).0 ≡ event
unfolding from_event spell
gifted = refl

event_facts_example :
    let e = (from_event reader (codes "channel.subscription.gift") []).1 in
    (is_empty e.name ≡ false)
    × (length e.name ≤ 191)
    × (length e.message ≤ 319)
    × ((e.kind ≢ gift) ⊎ (pos 1 ≤ℤ e.amount))
event_facts_example = event_facts reader (codes "channel.subscription.gift") [] refl gifted
