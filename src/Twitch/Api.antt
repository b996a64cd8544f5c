-- ===== src/Twitch/Api.antt =====
-- The HTTP side of the Twitch client, src/ff-twitch-api.c and src/ff-twitch-api.h: the device sign-in,
-- the renewal of a token, the user's id and the subscriptions. What a call writes to `err` comes with
-- the failure, whole, for the caller's buffer cuts it; `out` comes with the success. Null pointers are
-- not modelled.
pub mod Renewal
pub mod Tokens
pub mod Helix
use obs_foxfire.EventSub.{Json}
use obs_foxfire.Prelude.Text.{decimal_ℤ}
use obs_foxfire.Twitch.{scopes, form_escape}
use obs_foxfire.Prelude.{
  begins, if◌then◌else◌, length, Bytes, codes, is_empty, clip, ℕ, suc, ◌/◌, ◌<◌, Bool, true, false,
  not, ◌&&◌, ◌||◌, Option, none, some, List, [], ◌∷◌, ◌++◌,
}
use obs_foxfire.Prelude.Int.{ℤ, pos, negsuc, sub_ℕ, ◌+ℤ◌, ltb_ℤ, eqb_ℤ, to_int32}

-- What `ff_http_request` gives: a text when no answer came, or the status and the body, if any.
pub data Answer : Type 0 where
  failed : Bytes → Answer
  answered : ℤ → Option Bytes → Answer

pub record Request : Type 0 where
  pub method : Bytes
  pub url : Bytes
  pub headers : List Bytes
  pub body : Option Bytes

-- The world of the HTTP side: `ff_http_request` (curl, in src/ff-net.c), `time`, and the JSON reader,
-- of whose arrays the objects are read.
pub record Http : Type 1 where
  pub World : Type 0
  pub json : Json
  pub get_array : json.Data → Bytes → List json.Data
  pub request : World → Request → Answer × World
  pub time : World → ℤ × World

-- ID_BASE and API_BASE, and `ff_twitch_set_bases`.
pub record Bases : Type 0 where
  pub id_base : Bytes
  pub api_base : Bytes

abbrev pub default_id : Bytes
default_id = codes "https://id.twitch.tv"

abbrev pub default_api : Bytes
default_api = codes "https://api.twitch.tv"

abbrev pub or_default : Option Bytes → Bytes → Bytes
or_default none d = d
or_default (some s) d = s

unfoldable pub set_bases : Option Bytes → Option Bytes → Bases
set_bases id api = record {
  id_base = clip 256 (or_default id default_id);
  api_base = clip 256 (or_default api default_api);
}

-- `struct ff_twitch_device` and `struct ff_twitch_token`
pub record Device : Type 0 where
  pub device_code : Bytes
  pub user_code : Bytes
  pub verify_url : Bytes
  pub interval : ℤ
  pub expires_in : ℤ

pub record Token : Type 0 where
  pub access : Bytes
  pub refresh : Bytes
  pub expires_at : ℤ
  pub scope_list : Bytes

-- A call that returns true with `*out`, or false with `err`.
pub data Outcome (A : Type 0) : Type 0 where
  fine : A → Outcome A
  trouble : Bytes → Outcome A

-- `enum ff_twitch_poll`, with the token or the text written to `err`; a pending answer may write one.
pub data Polled : Type 0 where
  pending : Option Bytes → Polled
  got_token : Token → Polled
  slow_down : Polled
  denied expired error : Bytes → Polled

-- `enum ff_refresh_result`
pub data Renewed : Type 0 where
  renewed : Token → Renewed
  rejected unreachable : Bytes → Renewed

-- What `post_form` gives.
pub data Posted (A : Type 0) : Type 0 where
  unanswered : Bytes → Posted A
  not_json : ℤ → Bytes → Posted A
  reply : ℤ → A → Posted A

-- `status / 100`, which C rounds towards 0.
abbrev pub hundreds : ℤ → ℤ
hundreds (pos n) = pos (n / 100)
hundreds (negsuc n) = sub_ℕ 0 (suc n / 100)

abbrev pub is_class : ℤ → ℕ → Bool
is_class status k = eqb_ℤ (hundreds status) (pos k)

-- `strstr(msg, part)`
unfoldable pub mentions : Bytes → Bytes → Bool
mentions [] part = begins part []
mentions (c ∷ s) part = begins part (c ∷ s) || mentions s part

-- A text that `form_escape` returns a length for: it fits, and is not empty.
unfoldable pub escaped : Bytes → ℕ → Option Bytes
unfolding form_escape
escaped s cap = elim (form_escape s cap) [
  | none ↦ none
  | some t ↦ if is_empty t then none else some t
]

-- `scopes`, the empty text if the list does not fit.
unfoldable pub scope_text : Bytes
unfolding scopes
scope_text = elim (scopes 512) [ none ↦ [] | some s ↦ s ]

abbrev pub form_headers : List Bytes
form_headers = codes "Content-Type: application/x-www-form-urlencoded" ∷ []

-- `if (out->interval < 1) out->interval = 5`, and the address by default.
abbrev pub at_least_5 : ℤ → ℤ
at_least_5 n = if ltb_ℤ n (pos 1) then pos 5 else n

abbrev pub or_activate : Bytes → Bytes
or_activate url = if is_empty url then codes "https://www.twitch.tv/activate" else url

module _ (http : Http) (bases : Bases) where
  open http use {World, json, get_array, request, time}
  open json use {Data, from_json, get_string, get_int}

  -- What is made of an answer to a form.
  unfoldable pub read_reply : Bytes → Answer → Posted Data
  read_reply url (failed why) = unanswered why
  read_reply url (answered status none) = not_json status (
      url ++ (codes " answered " ++ (decimal_ℤ status ++ codes " with something that is not JSON")))
  read_reply url (answered status (some text)) = elim (from_json text) [
    | none ↦ not_json status (
        url
        ++ (codes " answered " ++ (decimal_ℤ status ++ codes " with something that is not JSON")))
    | some d ↦ reply status d
  ]

  -- `post_form`
  unfoldable pub post_form : World → Bytes → Bytes → Posted Data × World
  unfolding read_reply
  post_form w url body =
      let (a, w') =
        request w
          (record { method = codes "POST"; url = url; headers = form_headers; body = some body }) in
      (read_reply url a, w')

  -- What `ff_twitch_device_start` makes of a reply.
  unfoldable pub read_device : ℤ → Data → Outcome Device
  read_device status d =
      let user_code = clip 32 (get_string d (codes "user_code")) in
      let device_code = clip 512 (get_string d (codes "device_code")) in
      if not (is_class status 2)
      then trouble (
          codes "Twitch refused the request ("
          ++ (decimal_ℤ status ++ (codes "): " ++ get_string d (codes "message"))))
      else if is_empty user_code || is_empty device_code
      then trouble (codes "Twitch returned no code to show")
      else fine (record {
        device_code = device_code;
        user_code = user_code;
        verify_url = or_activate (clip 256 (get_string d (codes "verification_uri")));
        interval = at_least_5 (to_int32 (get_int d (codes "interval")));
        expires_in = to_int32 (get_int d (codes "expires_in"));
      })

  unfoldable pub of_posted : {A : Type 0} → Posted Data → (ℤ → Data → Outcome A) → Outcome A
  of_posted (unanswered why) f = trouble why
  of_posted (not_json status why) f = trouble why
  of_posted (reply status d) f = f status d

  -- `ff_twitch_device_start`; the empty client id is refused first.
  unfoldable pub device_start : World → Bytes → Outcome Device × World
  unfolding escaped scope_text post_form read_device of_posted
  device_start w client_id =
      if is_empty client_id
      then (trouble (codes "no client id set"), w)
      else elim (escaped scope_text 1536) [
        | none ↦ (trouble (codes "the request would not fit"), w)
        | some esc_scopes ↦ elim (escaped client_id 256) [
          | none ↦ (trouble (codes "the request would not fit"), w)
          | some esc_id ↦
              let (p, w') =
                post_form w (clip 512 (bases.id_base ++ codes "/oauth2/device")) (
                  clip 2048 (codes "client_id=" ++ (esc_id ++ (codes "&scopes=" ++ esc_scopes)))) in
              (of_posted p read_device, w')
        ]
      ]

  -- `token_from`
  unfoldable pub token_from : World → Data → Token × World
  token_from w d =
      let (now, w') = time w in
      let ttl = get_int d (codes "expires_in") in
      (
        record {
          access = clip 512 (get_string d (codes "access_token"));
          refresh = clip 512 (get_string d (codes "refresh_token"));
          expires_at = now +ℤ (if ltb_ℤ (pos 0) ttl then ttl else pos 3600);
          scope_list = clip 512 (get_string d (codes "scope"));
        },
        w',
      )

  -- What `ff_twitch_device_poll` makes of a reply.
  unfoldable pub read_poll : World → ℤ → Data → Polled × World
  unfolding token_from mentions
  read_poll w status d =
      let msg = get_string d (codes "message") in
      let (token, w') = token_from w d in
      if is_class status 5
      then (
        pending (
            some (
              codes "Twitch is having trouble ("
              ++ (decimal_ℤ status ++ codes "); still waiting"))),
        w,
      )
      else if is_class status 2 && not (is_empty (get_string d (codes "access_token")))
      then (got_token token, w')
      else if mentions msg (codes "authorization_pending")
      then (pending none, w)
      else if mentions msg (codes "slow_down")
      then (slow_down, w)
      else if mentions msg (codes "expired") || mentions msg (codes "invalid device code")
      then (expired (codes "the code expired before it was used"), w)
      else if mentions msg (codes "denied")
      then (denied (codes "authorisation was refused"), w)
      else (error (codes "Twitch answered " ++ (decimal_ℤ status ++ (codes ": " ++ msg))), w)

  unfoldable pub poll_posted : World → Posted Data → Polled × World
  unfolding read_poll
  poll_posted w (unanswered why) = (error why, w)
  poll_posted w (not_json status why) = (error why, w)
  poll_posted w (reply status d) = read_poll w status d

  -- `ff_twitch_device_poll`
  unfoldable pub device_poll : World → Bytes → Bytes → Polled × World
  unfolding escaped scope_text post_form poll_posted
  device_poll w client_id device_code =
      let misfit : Polled × World = (error (codes "the request would not fit"), w) in
      elim (escaped client_id 256) [
        | none ↦ misfit
        | some esc_id ↦ elim (escaped device_code 1024) [
          | none ↦ misfit
          | some esc_dev ↦ elim (escaped scope_text 1536) [
            | none ↦ misfit
            | some esc_scopes ↦
                let (p, w') = post_form w (clip 512 (bases.id_base ++ codes "/oauth2/token")) (
                  clip 3072 (
                    codes "client_id="
                    ++ (esc_id
                        ++ (codes "&scopes="
                            ++ (esc_scopes
                                ++ (codes "&device_code="
                                    ++ (esc_dev
                                        ++ codes
                                            "&grant_type=urn%3Aietf%3Aparams%3Aoauth%3Agrant-type%3Adevice_code"))))))) in
                poll_posted w' p
          ]
        ]
      ]

  -- What `ff_twitch_refresh` makes of a reply.
  unfoldable pub read_renewal : World → ℤ → Data → Renewed × World
  unfolding token_from
  read_renewal w status d =
      let (token, w') = token_from w d in
      let msg = get_string d (codes "message") in
      if is_class status 2 && not (is_empty (get_string d (codes "access_token")))
      then (renewed token, w')
      else if is_class status 4
      then (
        rejected (
            codes "the saved sign-in is no longer valid ("
            ++ (decimal_ℤ status ++ (codes "): " ++ msg))),
        w,
      )
      else (
        unreachable (
            codes "Twitch could not refresh the sign-in right now ("
            ++ (decimal_ℤ status ++ (codes "): " ++ msg))),
        w,
      )

  unfoldable pub renewal_posted : World → Posted Data → Renewed × World
  unfolding read_renewal
  renewal_posted w (unanswered why) =
      (unreachable (codes "could not reach Twitch to refresh the sign-in"), w)
  renewal_posted w (not_json status why) = (
    unreachable (
        if eqb_ℤ status (pos 0)
        then codes "could not reach Twitch to refresh the sign-in"
        else codes "Twitch answered "
          ++ (decimal_ℤ status ++ codes " with something that is not JSON")),
    w,
  )
  renewal_posted w (reply status d) = read_renewal w status d

  -- `ff_twitch_refresh`
  unfoldable pub refresh : World → Bytes → Bytes → Renewed × World
  unfolding escaped post_form renewal_posted
  refresh w client_id token =
      let misfit : Renewed × World = (rejected (codes "the request would not fit"), w) in
      if is_empty token
      then (rejected (codes "no refresh token stored"), w)
      else elim (escaped client_id 256) [
        | none ↦ misfit
        | some esc_id ↦ elim (escaped token 1024) [
          | none ↦ misfit
          | some esc_rt ↦
              let (p, w') = post_form w (clip 512 (bases.id_base ++ codes "/oauth2/token")) (
                clip 2048 (
                  codes "client_id="
                  ++ (esc_id ++ (codes "&grant_type=refresh_token&refresh_token=" ++ esc_rt)))) in
              renewal_posted w' p
        ]
      ]
