-- ===== src/EventSub/Messages.antt =====
-- What `ff_es_handle` promises of each result.
use obs_foxfire.Queue.{Event, zero_event}
use obs_foxfire.Prelude.{
  Bool-cases, Option-cases, Bytes, is_empty, bytes_eq, ◌≡◌, refl, ◌⊎◌, inl, inr, false, ◌||◌,
  Option, none, some, [], arith,
}
use obs_foxfire.EventSub.{
  spell, from_event, noted, on_session, on_notification, on_revocation, part, on_message, handle,
  Json, Es, Result, ignored, welcome, keepalive, event, reconnect, revoked, bad, metadata,
  message_type, payload, session, subscription, event_key, type_key, session_welcome,
  session_reconnect, session_keepalive, notification, revocation,
}

-- What a result says of the state and of `*out`; the state and `*out` before are `s` and `out`.
abbrev pub Promise : (s s' : Es) (out out' : Event) → Result → Type 0
Promise s s' out out' welcome = (is_empty s'.session_id ≡ false) × (out' ≡ out)
Promise s s' out out' reconnect = (is_empty s'.reconnect_url ≡ false) × (out' ≡ out)
Promise s s' out out' keepalive = (s' ≡ record s { note = []; err = [] }) × (out' ≡ out)
Promise s s' out out' revoked =
    (s'.session_id ≡ s.session_id) × (s'.keepalive_secs ≡ s.keepalive_secs) × (out' ≡ out)
Promise s s' out out' bad = out' ≡ out
Promise s s' out out' event = (s' ≡ record s { note = []; err = [] })
Promise s s' out out' ignored =
    (s'.err ≡ []) × (s'.session_id ≡ s.session_id) × ((out' ≡ out) ⊎ (out' ≡ zero_event))

module _ (j : Json) where
  open j use {Data}

  on_session_lem :
      (s s0 : Es) (out : Event) (type : Bytes) (sess : Option Data)
      → (let (r, s') = on_session j s type sess in Promise s0 s' out out r)
  unfolding on_session
  on_session_lem s s0 out type none = refl
  on_session_lem s s0 out type (some d) = ground arith

  from_event_lem :
      (s : Es) (out : Event) (type : Bytes) (ev : Data)
      → s.note ≡ []
      → s.err ≡ []
      → (let (r, out', why) = from_event j type ev in Promise s (noted j s why) out out' r)
  unfolding from_event
  from_event_lem s out type ev n e = ground arith

  on_notification_lem :
      (s : Es) (out : Event) (about ev : Option Data)
      → s.note ≡ []
      → s.err ≡ []
      → (let (r, s', out') = on_notification j s out about ev in Promise s s' out out' r)
  unfolding on_notification
  on_notification_lem s out none ev n e = refl
  on_notification_lem s out (some a) none n e = ground arith
  on_notification_lem s out (some a) (some d) n e =
      elim (Bool-cases (is_empty (j.get_string a (spell type_key)))) [
        | inl untyped ↦ rw untyped refl
        | inr typed ↦ rw typed (from_event_lem s out (j.get_string a (spell type_key)) d n e)
      ]

  on_revocation_lem :
      (s : Es) (about : Option Data)
      → s.note ≡ []
      → s.err ≡ []
      → ((on_revocation j s about).session_id ≡ s.session_id)
        × ((on_revocation j s about).keepalive_secs ≡ s.keepalive_secs)
  unfolding on_revocation
  on_revocation_lem s none n e = (refl, refl)
  on_revocation_lem s (some d) n e = (refl, refl)

  on_message_lem :
      (s : Es) (out : Event) (type : Bytes) (load : Option Data)
      → s.note ≡ []
      → s.err ≡ []
      → (let (r, s', out') = on_message j s out type load in Promise s s' out out' r)
  unfolding on_message
  on_message_lem s out type load n e = elim (Bool-cases (is_empty type)) [
    | inl a ↦ rw a refl
    | inr a ↦
        elim (Bool-cases
          (bytes_eq type (spell session_welcome) || bytes_eq type (spell session_reconnect))) [
            | inl b ↦ rw (a, b) (on_session_lem s s out type (part j load session))
            | inr b ↦ elim (Bool-cases (bytes_eq type (spell session_keepalive))) [
              | inl c ↦ rw (a, b, c) (ground arith, refl)
              | inr c ↦ elim (Bool-cases (bytes_eq type (spell notification))) [
                | inl d ↦
                    rw (a, b, c, d)
                      (on_notification_lem s out (part j load subscription) (part j load event_key)
                        n e)
                | inr d ↦ elim (Bool-cases (bytes_eq type (spell revocation))) [
                  | inl f ↦
                      rw (a, b, c, d, f)
                        (let (x, y) = on_revocation_lem s (part j load subscription) n e in
                          (x, y, refl))
                  | inr f ↦ rw (a, b, c, d, f) (e, refl, inl refl)
                ]
              ]
            ]
          ]
  ]

  Promise-cleared :
      (s s' : Es) (out out' : Event) (r : Result)
      → Promise (record s { note = []; err = [] }) s' out out' r
      → Promise s s' out out' r
  Promise-cleared s s' out out' welcome p = p
  Promise-cleared s s' out out' reconnect p = p
  Promise-cleared s s' out out' keepalive p = p
  Promise-cleared s s' out out' revoked p = p
  Promise-cleared s s' out out' bad p = p
  Promise-cleared s s' out out' event p = p
  Promise-cleared s s' out out' ignored p = p

  -- Whatever the message: a welcome leaves a session id, a reconnect leaves an address to connect to,
  -- a keepalive and an alert change nothing but to clear the two texts, a revocation and what is
  -- ignored leave the session id as it was, and the alert `*out` is written for an event only, or
  -- cleared for an event that is ignored.
  pub handle-Promise :
      (s : Es) (json : Bytes) (out : Event)
      → (let (r, s', out') = handle j s json out in Promise s s' out out' r)
  unfolding handle
  handle-Promise s json out = elim (Option-cases (j.from_json json)) [
    | inl a ↦ rw (a, handle) refl
    | inr (root, a) ↦ elim (Option-cases (j.get_obj root (spell metadata))) [
      | inl b ↦ rw (a, handle, b) refl
      | inr (meta, b) ↦
          rw (a, handle, b)
            (Promise-cleared s _ out _ _ (
              on_message_lem (record s { note = []; err = [] }) out
                (j.get_string meta (spell message_type)) (j.get_obj root (spell payload)) refl
                refl))
    ]
  ]
