-- ===== src/EventSub.antt =====
-- src/ff-eventsub.c and src/ff-eventsub.h: a message of Twitch's EventSub is read into a decision, and
-- an event into an alert. The JSON reader is libobs's `obs_data`, and the interface's own texts come
-- from OBS's locale: both are parameters, the record `Json`. A call that changes `*s` or `*out`
-- returns them anew; `struct ff_es` holds C strings, clipped to the sizes of its arrays.
pub mod Events
pub mod Messages
use obs_foxfire.Queue.{Event, zero_event, follow, sub, resub, gift, bits, raid, redeem}
use obs_foxfire.Prelude.{
  if◌then◌else◌, Bytes, codes, is_empty, bytes_eq, clip, ℕ, Bool, true, false, not, ◌&&◌, ◌||◌,
  Option, none, some, List, [], ◌∷◌, ◌++◌,
}
use obs_foxfire.Prelude.Int.{ℤ, pos, ltb_ℤ, to_int32}

-- What is used of libobs: `obs_data_create_from_json`, `obs_data_get_obj` (null if the key has no
-- object), `obs_data_get_string` ("" if it has no string), `obs_data_get_int`, `obs_data_get_bool`,
-- and `obs_module_text`.
pub record Json : Type 1 where
  pub Data : Type 0
  pub from_json : Bytes → Option Data
  pub get_obj : Data → Bytes → Option Data
  pub get_string : Data → Bytes → Bytes
  pub get_int : Data → Bytes → ℤ
  pub get_bool : Data → Bytes → Bool
  pub module_text : Bytes → Bytes

-- `enum ff_es_result`
pub data Result : Type 0 where
  ignored welcome keepalive event reconnect revoked bad : Result

-- `struct ff_es`
pub record Es : Type 0 where
  pub session_id : Bytes
  pub reconnect_url : Bytes
  pub keepalive_secs : ℤ
  pub note : Bytes
  pub err : Bytes

-- `struct ff_es_sub` and FF_ES_SUBS
pub record Sub : Type 0 where
  pub type : Bytes
  pub version : Bytes
  pub scope : Bytes
  pub needs_moderator : Bool

unfoldable pub subs : List Sub
subs =
    record {
      type = codes "channel.follow";
      version = codes "2";
      scope = codes "moderator:read:followers";
      needs_moderator = true;
    }
    ∷ record {
      type = codes "channel.subscribe";
      version = codes "1";
      scope = codes "channel:read:subscriptions";
      needs_moderator = false;
    }
    ∷ record {
      type = codes "channel.subscription.gift";
      version = codes "1";
      scope = codes "channel:read:subscriptions";
      needs_moderator = false;
    }
    ∷ record {
      type = codes "channel.subscription.message";
      version = codes "1";
      scope = codes "channel:read:subscriptions";
      needs_moderator = false;
    }
    ∷ record {
      type = codes "channel.cheer";
      version = codes "1";
      scope = codes "bits:read";
      needs_moderator = false;
    }
    ∷ record {
      type = codes "channel.raid";
      version = codes "1";
      scope = [];
      needs_moderator = false;
    }
    ∷ record {
      type = codes "channel.channel_points_custom_reward_redemption.add";
      version = codes "1";
      scope = codes "channel:read:redemptions";
      needs_moderator = false;
    }
    ∷ []

-- `ff_es_tier`
unfoldable pub tier : Bytes → ℕ
tier t =
    if bytes_eq t (codes "1000")
    then 1
    else if bytes_eq t (codes "2000")
    then 2
    else if bytes_eq t (codes "3000")
    then 3
    else 0

-- The keys that the code reads, and the types of event and message, by name.
pub data Word : Type 0 where
  user_name is_gift is_anonymous tier_key total cumulative_months message text bits_key viewers :
      Word
  from_broadcaster user_input reward title metadata message_type payload session id_key : Word
  keepalive_key reconnect_url_key subscription event_key type_key status : Word
  channel_follow channel_subscribe channel_gift channel_resub channel_cheer channel_raid : Word
  channel_redeem session_welcome session_reconnect session_keepalive notification revocation : Word

unfoldable pub spell : Word → Bytes
spell user_name = codes "user_name"
spell is_gift = codes "is_gift"
spell is_anonymous = codes "is_anonymous"
spell tier_key = codes "tier"
spell total = codes "total"
spell cumulative_months = codes "cumulative_months"
spell message = codes "message"
spell text = codes "text"
spell bits_key = codes "bits"
spell viewers = codes "viewers"
spell from_broadcaster = codes "from_broadcaster_user_name"
spell user_input = codes "user_input"
spell reward = codes "reward"
spell title = codes "title"
spell metadata = codes "metadata"
spell message_type = codes "message_type"
spell payload = codes "payload"
spell session = codes "session"
spell id_key = codes "id"
spell keepalive_key = codes "keepalive_timeout_seconds"
spell reconnect_url_key = codes "reconnect_url"
spell subscription = codes "subscription"
spell event_key = codes "event"
spell type_key = codes "type"
spell status = codes "status"
spell channel_follow = codes "channel.follow"
spell channel_subscribe = codes "channel.subscribe"
spell channel_gift = codes "channel.subscription.gift"
spell channel_resub = codes "channel.subscription.message"
spell channel_cheer = codes "channel.cheer"
spell channel_raid = codes "channel.raid"
spell channel_redeem = codes "channel.channel_points_custom_reward_redemption.add"
spell session_welcome = codes "session_welcome"
spell session_reconnect = codes "session_reconnect"
spell session_keepalive = codes "session_keepalive"
spell notification = codes "notification"
spell revocation = codes "revocation"

-- The texts written to `err` and `note`.
pub data Remark : Type 0 where
  not_json no_metadata no_type no_url no_id no_event no_sub_type gifted : Remark
  no_session unhandled not_acted : Bytes → Remark
  stopped : Bytes → Bytes → Remark

pub remark_text : Remark → Bytes
remark_text not_json = codes "the message is not JSON"
remark_text no_metadata = codes "the message has no metadata"
remark_text no_type = codes "the message has no message_type"
remark_text no_url = codes "a reconnect with no URL to reconnect to"
remark_text no_id = codes "a welcome with no session id"
remark_text no_event = codes "a notification with no event"
remark_text no_sub_type = codes "a notification with no subscription type"
remark_text gifted = codes "a gifted sub, counted on the gift event instead"
remark_text (no_session t) = codes "a " ++ (t ++ codes " with no session")
remark_text (unhandled t) = codes "no handler for subscription type '" ++ (t ++ codes "'")
remark_text (not_acted t) = codes "a '" ++ (t ++ codes "' message, which we do not act on")
remark_text (stopped t why) = codes "Twitch stopped '" ++ (t ++ (codes "': " ++ why))

module _ (j : Json) where
  open j use {Data, from_json, get_obj, get_string, get_int, get_bool, module_text}

  -- `name_into` at `sizeof out->name`
  unfoldable pub name_of : Data → Word → Bool → Bytes
  name_of ev field anonymous =
      let n = get_string ev (spell field) in
      clip 192
        (if anonymous || is_empty n then module_text (codes "Foxfire.Alert.Anonymous") else n)

  -- `message_into` at `sizeof out->message`
  unfoldable pub message_of : Data → Bytes
  message_of ev =
      let flat = get_string ev (spell message) in
      if not (is_empty flat) then clip 320 flat else elim (get_obj ev (spell message)) [
        | none ↦ []
        | some obj ↦ clip 320 (get_string obj (spell text))
      ]

  -- The message of a redemption: what was typed, or else the reward's title.
  unfoldable pub redeem_message : Data → Bytes
  redeem_message ev =
      let typed = clip 320 (get_string ev (spell user_input)) in
      elim (get_obj ev (spell reward)) [
        | none ↦ typed
        | some r ↦
            let t = get_string r (spell title) in
            if not (is_empty t) && is_empty typed then clip 320 t else typed
      ]

  -- `from_event`: the result, `*out`, and what is written to `note`, if anything.
  unfoldable pub from_event : Bytes → Data → Result × Event × Option Remark
  from_event type ev =
      let name = name_of ev user_name false in
      let donor = name_of ev user_name (get_bool ev (spell is_anonymous)) in
      let level = tier (get_string ev (spell tier_key)) in
      let given = get_int ev (spell total) in
      if bytes_eq type (spell channel_follow)
      then (event, record zero_event { kind = follow; name = name }, none)
      else if bytes_eq type (spell channel_subscribe)
      then (if get_bool ev (spell is_gift)
          then (ignored, zero_event, some gifted)
          else (event, record zero_event { kind = sub; tier = level; name = name }, none))
      else if bytes_eq type (spell channel_gift)
      then (
        event,
        record zero_event {
          kind = gift;
          tier = level;
          amount = if ltb_ℤ given (pos 1) then pos 1 else given;
          name = donor;
        },
        none,
      )
      else if bytes_eq type (spell channel_resub)
      then (
        event,
        record zero_event {
          kind = resub;
          tier = level;
          amount = get_int ev (spell cumulative_months);
          name = name;
          message = message_of ev;
        },
        none,
      )
      else if bytes_eq type (spell channel_cheer)
      then (
        event,
        record zero_event {
          kind = bits;
          amount = get_int ev (spell bits_key);
          name = donor;
          message = message_of ev;
        },
        none,
      )
      else if bytes_eq type (spell channel_raid)
      then (
        event,
        record zero_event {
          kind = raid;
          amount = get_int ev (spell viewers);
          name = name_of ev from_broadcaster false;
        },
        none,
      )
      else if bytes_eq type (spell channel_redeem)
      then (
        event,
        record zero_event { kind = redeem; name = name; message = redeem_message ev },
        none,
      )
      else (ignored, zero_event, some (unhandled type))

  abbrev pub fail : Es → Remark → Es
  fail s why = record s { err = clip 256 (remark_text why) }

  abbrev pub noted : Es → Option Remark → Es
  noted s none = s
  noted s (some why) = record s { note = clip 256 (remark_text why) }

  -- The branch for session_welcome and session_reconnect, on the payload's session.
  unfoldable pub on_session : Es → Bytes → Option Data → Result × Es
  on_session s type none = (bad, fail s (no_session type))
  on_session s type (some sess) =
      let s' = record s {
        session_id = clip 128 (get_string sess (spell id_key));
        keepalive_secs = to_int32 (get_int sess (spell keepalive_key));
        reconnect_url = clip 1024 (get_string sess (spell reconnect_url_key));
      } in
      if bytes_eq type (spell session_reconnect)
      then (if is_empty s'.reconnect_url then (bad, fail s' no_url) else (reconnect, s'))
      else if is_empty s'.session_id
      then (bad, fail s' no_id)
      else (welcome, s')

  -- The branch for notifications, on the payload's subscription and event.
  unfoldable pub on_notification : Es → Event → Option Data → Option Data → Result × Es × Event
  on_notification s out about ev =
      let type : Bytes = elim about [ none ↦ [] | some d ↦ get_string d (spell type_key) ] in
      if is_empty type then (bad, fail s no_sub_type, out) else elim ev [
        | none ↦ (bad, fail s no_event, out)
        | some d ↦ let (r, out', why) = from_event type d in (r, noted s why, out')
      ]

  unfoldable pub on_revocation : Es → Option Data → Es
  on_revocation s none = noted s (some (stopped (codes "a subscription") (codes "no reason given")))
  on_revocation s (some d) =
      noted s (some (stopped (get_string d (spell type_key)) (get_string d (spell status))))

  -- A field of the payload, which may be missing itself.
  abbrev pub part : Option Data → Word → Option Data
  part none key = none
  part (some p) key = get_obj p (spell key)

  -- What is done with a message of a type, on its payload.
  unfoldable pub on_message : Es → Event → Bytes → Option Data → Result × Es × Event
  on_message s out type load =
      if is_empty type
      then (bad, fail s no_type, out)
      else if bytes_eq type (spell session_welcome) || bytes_eq type (spell session_reconnect)
      then (let (r, s') = on_session s type (part load session) in (r, s', out))
      else if bytes_eq type (spell session_keepalive)
      then (keepalive, s, out)
      else if bytes_eq type (spell notification)
      then on_notification s out (part load subscription) (part load event_key)
      else if bytes_eq type (spell revocation)
      then (revoked, on_revocation s (part load subscription), out)
      else (ignored, noted s (some (not_acted type)), out)

  -- `ff_es_handle`
  unfoldable pub handle : Es → Bytes → Event → Result × Es × Event
  handle s json out =
      let s' = record s { note = []; err = [] } in
      elim (from_json json) [
        | none ↦ (bad, fail s' not_json, out)
        | some root ↦ elim (get_obj root (spell metadata)) [
          | none ↦ (bad, fail s' no_metadata, out)
          | some meta ↦
              on_message s' out (get_string meta (spell message_type))
                (get_obj root (spell payload))
        ]
      ]
