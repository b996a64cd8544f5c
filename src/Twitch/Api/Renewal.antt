-- ===== src/Twitch/Api/Renewal.antt =====
-- When a saved sign-in is given up.
use obs_foxfire.Twitch.Api.{
  failed, answered, renewed, is_class, escaped, form_headers, read_reply, post_form, read_renewal,
  renewal_posted, Request, Http, Bases, Token, Answer, rejected, unreachable,
}
use obs_foxfire.Twitch.Api.{refresh}
use obs_foxfire.Prelude.{
  leb, Bool-cases, Option-cases, Bytes, codes, is_empty, clip, ℕ, ◌≡◌, refl, ◌≢◌, inl, inr, true,
  not, ◌&&◌, none, some, [], ◌∷◌, ◌++◌, arith,
}
use obs_foxfire.Prelude.Int.{ℤ}

-- The request that `ff_twitch_refresh` sends.
abbrev pub renewal_request : Bases → Bytes → Bytes → Request
renewal_request bases esc_id esc_rt = record {
  method = codes "POST";
  url = clip 512 (bases.id_base ++ codes "/oauth2/token");
  headers = form_headers;
  body = some (
      clip 2048 (
        codes "client_id="
        ++ (esc_id ++ (codes "&grant_type=refresh_token&refresh_token=" ++ esc_rt))));
}

escaped-nil : (cap : ℕ) (t : Bytes) → escaped [] cap ≢ some t
unfolding escaped
escaped-nil size t h = elim (Bool-cases (leb size 0)) [
  | inl e ↦ ground (arith, h, e)
  | inr e ↦ ground (arith, h, e)
]

empty_escaped : (token t : Bytes) → escaped token 1024 ≡ some t → is_empty token ≢ true
empty_escaped [] t b e = escaped-nil 1024 t b
empty_escaped (c ∷ s) t b e = ground (arith, e)

module _ (http : Http) (bases : Bases) where
  open http use {World, request}

  renewed_ne : (t : Token) (why : Bytes) → renewed t ≢ rejected why
  renewed_ne t why h = ground (arith, h)

  unreachable_ne : (e why : Bytes) → unreachable e ≢ rejected why
  unreachable_ne e why h = ground (arith, h)

  read_renewal-rejected :
      (w : World) (status : ℤ) (d : http.json.Data) (why : Bytes)
      → (read_renewal http bases w status d).0 ≡ rejected why
      → is_class status 4 ≡ true
  unfolding read_renewal
  read_renewal-rejected w status d why h = elim (Bool-cases (is_class status 4)) [
    | inl e ↦ e
    | inr e ↦
        elim (Bool-cases
          (is_class status 2 && not (is_empty (http.json.get_string d (codes "access_token"))))) [
            | inl f ↦ absurd (renewed_ne _ why (rw (read_renewal, f) at h))
            | inr f ↦ absurd (unreachable_ne _ why (rw (read_renewal, f, e) at h))
          ]
  ]

  -- A reply to a renewal is a rejection only with a status of 4xx.
  rejected_reply :
      (w : World) (url : Bytes) (a : Answer) (why : Bytes)
      → (renewal_posted http bases w (read_reply http bases url a)).0 ≡ rejected why
      → (status : ℤ) × (text : Bytes) × (a ≡ answered status (some text))
        × (is_class status 4 ≡ true)
  unfolding renewal_posted read_reply
  rejected_reply w url (failed e) why h = absurd (unreachable_ne _ why h)
  rejected_reply w url (answered status none) why h = absurd (unreachable_ne _ why h)
  rejected_reply w url (answered status (some text)) why h =
      elim (Option-cases (http.json.from_json text)) [
        | inl e ↦ absurd (unreachable_ne _ why (rw (renewal_posted, read_reply, e) at h))
        | inr (d, e) ↦ (
          status,
          text,
          refl,
          read_renewal-rejected w status d why (rw (renewal_posted, read_reply, e) at h),
        )
      ]

  -- For a client id and a token that fit in the form, the sign-in is given up only because Twitch
  -- answered the request with a status of 4xx.
  pub refresh-rejected :
      (w : World) (client_id token esc_id esc_rt why : Bytes)
      → escaped client_id 256 ≡ some esc_id
      → escaped token 1024 ≡ some esc_rt
      → (refresh http bases w client_id token).0 ≡ rejected why
      → (status : ℤ) × (text : Bytes) × ((request w (renewal_request bases esc_id esc_rt)).0
          ≡ answered status (some text))
        × (is_class status 4 ≡ true)
  unfolding refresh post_form
  refresh-rejected w client_id token esc_id esc_rt why a b h = elim (Bool-cases (is_empty token)) [
    | inl e ↦ absurd (empty_escaped token esc_rt b e)
    | inr e ↦ rejected_reply _ _ _ why (rw (refresh, e, a, b) at h)
  ]
