-- ===== src/Session.antt =====
-- src/ff-session.c and src/ff-session.h: the decisions of one EventSub session, with the clock an
-- argument, and `ff_twitch_is_stale` of src/ff-twitch.c, which they use. A call that changes `*s`
-- returns the new session. `time_t` values are integers; `int` arithmetic that overflows, which C
-- leaves undefined, wraps here.
pub mod Subscribing
pub mod Handover
pub mod Silence
use obs_foxfire.Prelude.Text.{decimal_ℤ}
use obs_foxfire.Queue.{Event}
use obs_foxfire.EventSub.{
  Json, Result, ignored, welcome, keepalive, event, reconnect, revoked, bad, Es, handle,
}
use obs_foxfire.Prelude.{
  if◌then◌else◌, Bytes, codes, is_empty, clip, ◌+◌, ◌*◌, Bool, true, false, not, none, [], ◌++◌,
}
use obs_foxfire.Prelude.Int.{ℤ, pos, ◌+ℤ◌, ◌-ℤ◌, ltb_ℤ, leb_ℤ, eqb_ℤ, to_int32}

-- `enum ff_session_step`
pub data Step : Type 0 where
  nothing subscribe emit reconnect_now drop_it note : Step

-- `memset(&s->es, 0, sizeof s->es)`
abbrev pub zero_es : Es
zero_es = record {
  session_id = [];
  reconnect_url = [];
  keepalive_secs = pos 0;
  note = [];
  err = [];
}

-- `struct ff_session`
pub record Session : Type 0 where
  pub es : Es
  pub subscribed : Bool
  pub opened : ℤ
  pub handover_started : ℤ
  pub last_message : ℤ
  pub url : Bytes
  pub reason : Bytes

-- The texts written to `reason`; `quoted` copies a text of the EventSub state.
pub data Reason : Type 0 where
  never_started came_across : Reason
  went_quiet : ℤ → Reason
  quoted : Bytes → Reason
  accepted_none : ℤ → Reason
  accepted_some : ℤ → ℤ → Reason

pub reason_text : Reason → Bytes
reason_text never_started = codes "Twitch accepted the connection but never started the session"
reason_text came_across = codes "reconnected; the subscriptions came across with the session"
reason_text (went_quiet n) =
    codes "Twitch went quiet for more than " ++ (decimal_ℤ n ++ codes " seconds")
reason_text (quoted s) = s
reason_text (accepted_none n) =
    codes "Twitch accepted none of the " ++ (decimal_ℤ n ++ codes " alert types")
reason_text (accepted_some k n) =
    codes "only "
    ++ (decimal_ℤ k ++ (codes " of " ++ (decimal_ℤ n ++ codes " alert types subscribed")))

abbrev pub because : Session → Reason → Session
because s why = record s { reason = clip 512 (reason_text why) }

-- `keepalive_secs * 2 + 2`, an `int`.
unfoldable pub patience : ℤ → ℤ
patience k = to_int32 (k +ℤ k +ℤ pos 2)

-- `ff_twitch_is_stale`
unfoldable pub is_stale : ℤ → ℤ → ℤ → Bool
is_stale last keepalive_secs now =
    if leb_ℤ keepalive_secs (pos 0)
    then false
    else if leb_ℤ last (pos 0)
    then false
    else ltb_ℤ (last +ℤ patience keepalive_secs) now

-- `ff_session_init`; a null `url` is the empty one.
unfoldable pub init : Bytes → Session
init url = record {
  es = zero_es;
  subscribed = false;
  opened = pos 0;
  handover_started = pos 0;
  last_message = pos 0;
  url = clip 1024 url;
  reason = [];
}

-- `ff_session_opened`
unfoldable pub opened : Session → ℤ → Session
opened s now = record s { es = zero_es; opened = now; last_message = now; reason = [] }

-- FF_SESSION_WELCOME_SECS and FF_SESSION_HANDOVER_SECS
abbrev pub welcome_secs : ℤ
welcome_secs = pos 30

abbrev pub handover_secs : ℤ
handover_secs = pos 30

-- `ff_session_idle`
unfoldable pub idle : Session → ℤ → Step × Session
idle s now =
    if eqb_ℤ s.es.keepalive_secs (pos 0)
    then (if ltb_ℤ welcome_secs (now -ℤ s.opened)
        then (drop_it, because s never_started)
        else (nothing, s))
    else if is_stale s.last_message s.es.keepalive_secs now
    then (drop_it, because s (went_quiet (patience s.es.keepalive_secs)))
    else (nothing, s)

-- The `switch` of `ff_session_message`.
unfoldable pub decide : Session → Result → ℤ → Step × Session
decide s welcome now = if s.subscribed then (note, because s came_across) else (subscribe, s)
decide s keepalive now = (nothing, s)
decide s event now = (emit, s)
decide s reconnect now =
    (reconnect_now, record s { url = clip 1024 s.es.reconnect_url; handover_started = now })
decide s revoked now = (note, because s (quoted s.es.note))
decide s bad now = (note, because s (quoted s.es.err))
decide s ignored now =
    if is_empty s.es.note then (nothing, s) else (note, because s (quoted s.es.note))

-- `ff_session_message`: the step, the session and `*out`.
unfoldable pub on_message : Json → Session → Bytes → ℤ → Event → Step × Session × Event
on_message j s json now out =
    let (r, es', out') = handle j s.es json out in
    let (step, s') = decide (record s { es = es'; last_message = now; reason = [] }) r now in
    (step, s', out')

-- `ff_session_subscribed`
unfoldable pub on_subscribed : Session → ℤ → ℤ → Step × Session
on_subscribed s accepted total =
    let s' = record s { subscribed = true } in
    if leb_ℤ accepted (pos 0)
    then (drop_it, because s' (accepted_none total))
    else if ltb_ℤ accepted total
    then (note, because s' (accepted_some accepted total))
    else (nothing, s')

-- `ff_session_in_handover`, `ff_session_welcomed` and `ff_session_handover_expired`
unfoldable pub in_handover : Session → Bool
in_handover s = not (eqb_ℤ s.handover_started (pos 0))

unfoldable pub welcomed : Session → Bool
welcomed s = not (is_empty s.es.session_id)

unfoldable pub handover_expired : Session → ℤ → Bool
handover_expired s now =
    if eqb_ℤ s.handover_started (pos 0)
    then false
    else ltb_ℤ handover_secs (now -ℤ s.handover_started)

-- `ff_session_init_replacement`
unfoldable pub init_replacement : Bytes → Session
unfolding init
init_replacement url = record (init url) { subscribed = true }

-- `ff_session_adopt`
unfoldable pub adopt : Session → Session → ℤ → Session
adopt s pending now = record s {
  es = pending.es;
  opened = now;
  last_message = now;
  handover_started = pos 0;
  subscribed = true;
}
