-- ===== src/Twitch/Api/Helix.antt =====
-- The calls of Twitch's API proper: who is signed in, and the subscriptions (src/ff-twitch-api.c).
use obs_foxfire.EventSub.{Sub}
use obs_foxfire.Prelude.Text.{decimal_ℤ}
use obs_foxfire.Twitch.Api.{Answer, failed, answered, Http, Bases, Outcome, fine, trouble, is_class}
use obs_foxfire.Prelude.{
  if◌then◌else◌, Bytes, codes, is_empty, bytes_eq, clip, ◌||◌, Option, none, some, List, [], ◌∷◌,
  ◌++◌,
}
use obs_foxfire.Prelude.Int.{ℤ, pos, eqb_ℤ}

-- The condition of a subscription.
unfoldable pub condition_of : Sub → Bytes → Bytes
condition_of sub id = clip 512 (
    if sub.needs_moderator
    then codes "{\"broadcaster_user_id\":\""
      ++ (id ++ (codes "\",\"moderator_user_id\":\"" ++ (id ++ codes "\"}")))
    else if bytes_eq sub.type (codes "channel.raid")
    then codes "{\"to_broadcaster_user_id\":\"" ++ (id ++ codes "\"}")
    else codes "{\"broadcaster_user_id\":\"" ++ (id ++ codes "\"}"))

unfoldable pub subscription_body : Sub → Bytes → Bytes → Bytes
unfolding condition_of
subscription_body sub id session = clip 1536 (
    codes "{\"type\":\""
    ++ (sub.type
        ++ (codes "\",\"version\":\""
            ++ (sub.version
                ++ (codes "\",\"condition\":"
                    ++ (condition_of sub id
                        ++ (codes ",\"transport\":{\"method\":\"websocket\",\"session_id\":\""
                            ++ (session ++ codes "\"}}"))))))))

module _ (http : Http) (bases : Bases) where
  open http use {World, json, get_array, request}
  open json use {from_json, get_string}

  -- What `ff_twitch_user_id` makes of an answer: the id and the login, in buffers of 64 bytes.
  unfoldable pub read_user : Answer → Outcome (Bytes × Bytes)
  read_user (failed why) = trouble why
  read_user (answered status none) = trouble (
      codes "helix/users answered "
      ++ (decimal_ℤ status ++ codes " with something that is not JSON"))
  read_user (answered status (some text)) = elim (from_json text) [
    | none ↦ trouble (
        codes "helix/users answered "
        ++ (decimal_ℤ status ++ codes " with something that is not JSON"))
    | some d ↦ elim (get_array d (codes "data")) [
      | [] ↦ trouble (codes "helix/users answered " ++ (decimal_ℤ status ++ codes " with no user"))
      | u ∷ rest ↦
          let id = clip 64 (get_string u (codes "id")) in
          if is_empty id
          then trouble (codes "helix/users returned a user with no id")
          else fine (id, clip 64 (get_string u (codes "login")))
    ]
  ]

  -- `Authorization` and `Client-Id`
  abbrev pub auth_headers : Bytes → Bytes → List Bytes
  auth_headers client_id access =
      clip 600 (codes "Authorization: Bearer " ++ access)
      ∷ clip 400 (codes "Client-Id: " ++ client_id)
      ∷ []

  -- `ff_twitch_user_id`
  unfoldable pub user_id : World → Bytes → Bytes → Outcome (Bytes × Bytes) × World
  unfolding read_user
  user_id w client_id access =
      let (a, w') = request w (record {
        method = codes "GET";
        url = clip 512 (bases.api_base ++ codes "/helix/users");
        headers = auth_headers client_id access;
        body = none;
      }) in
      (read_user a, w')

  -- The message of a refusal, in front of which stands a colon.
  unfoldable pub refusal_of : Option Bytes → Bytes
  refusal_of none = []
  refusal_of (some text) = elim (from_json text) [
    | none ↦ []
    | some d ↦
        let msg = get_string d (codes "message") in if is_empty msg then [] else codes ": " ++ msg
  ]

  -- What `ff_twitch_subscribe` makes of an answer; 409 says that the subscription exists.
  unfoldable pub read_subscribed : Sub → Answer → Outcome ℤ
  unfolding refusal_of
  read_subscribed sub (failed why) = trouble why
  read_subscribed sub (answered status body) =
      if is_class status 2 || eqb_ℤ status (pos 409)
      then fine status
      else trouble (
          sub.type
          ++ (codes " was refused (" ++ (decimal_ℤ status ++ (codes ")" ++ refusal_of body))))

  -- `ff_twitch_subscribe`
  unfoldable pub subscribe : World → Bytes → Bytes → Sub → Bytes → Bytes → Outcome ℤ × World
  unfolding subscription_body read_subscribed
  subscribe w client_id access sub broadcaster_id session_id =
      let (a, w') = request w (record {
        method = codes "POST";
        url = clip 512 (bases.api_base ++ codes "/helix/eventsub/subscriptions");
        headers =
            clip 600 (codes "Authorization: Bearer " ++ access)
            ∷ clip 400 (codes "Client-Id: " ++ client_id)
            ∷ codes "Content-Type: application/json"
            ∷ [];
        body = some (subscription_body sub broadcaster_id session_id);
      }) in
      (read_subscribed sub a, w')
