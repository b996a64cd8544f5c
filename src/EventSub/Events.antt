-- ===== src/EventSub/Events.antt =====
-- Which events become alerts, and what the alerts hold.
use obs_foxfire.Queue.{zero_event, gift}
use obs_foxfire.Prelude.{
  if◌then◌else◌, Bool-cases, Option-cases, length, Bytes, codes, is_empty, clip, length-clip, ℕ,
  suc, ◌-◌, ◌≤◌, ◌≡◌, refl, ◌≢◌, ◌⊎◌, inl, inr, Bool, true, false, ◌||◌, some, List, [], ◌∷◌, arith,
}
use obs_foxfire.Prelude.Int.{pos, ◌≤ℤ◌}
use obs_foxfire.EventSub.{
  subs, spell, name_of, message_of, redeem_message, from_event, Json, Sub, ignored, event, Word,
  user_name, is_gift, is_anonymous, message, text, from_broadcaster, user_input, reward, title,
  gifted,
}

module _ (j : Json) where
  open j use {Data, get_bool, module_text}

  -- A subscribed type's event is an alert, but for a gifted subscription.
  abbrev pub Handled : Data → Bytes → Type 0
  Handled ev type =
      ((from_event j type ev).0 ≡ event)
      ⊎ ((type ≡ codes "channel.subscribe")
          × (get_bool ev (spell is_gift) ≡ true)
          × (from_event j type ev ≡ (ignored, zero_event, some gifted)))

  abbrev pub AllHandled : Data → List Sub → Type 0
  AllHandled ev [] = Unit
  AllHandled ev (s ∷ rest) = Handled ev s.type × AllHandled ev rest

  -- Every event of a type that is subscribed to becomes an alert, except that a gifted subscription
  -- is left to the gift event: the list of subscriptions and the handler agree.
  pub subs-handled : (ev : Data) → AllHandled ev subs
  unfolding subs from_event spell
  subs-handled ev =
      (inl refl, (gifted_or_not, (inl refl, (inl refl, (inl refl, (inl refl, (inl refl, tt)))))))
    where
      gifted_or_not : Handled ev (codes "channel.subscribe")
      gifted_or_not = elim (Bool-cases (get_bool ev (spell is_gift))) [
        | inl is ↦ inr (refl, is, rw is)
        | inr isnt ↦ inl (rw isnt)
      ]

  is_empty-clip : (s : Bytes) (n : ℕ) → is_empty s ≡ false → is_empty (clip (suc (suc n)) s) ≡ false
  is_empty-clip [] n h = cc
  is_empty-clip (c ∷ s) n h = let e : suc (suc n) - 1 ≡ suc n = omega arith in rw e

  -- the locale has a text for an anonymous sender
  abbrev Named : Type 0
  Named = is_empty (module_text (codes "Foxfire.Alert.Anonymous")) ≡ false

  name_of_lem :
      (ev : Data) (field : Word) (anonymous : Bool)
      → Named
      → (is_empty (name_of j ev field anonymous) ≡ false)
        × (length (name_of j ev field anonymous) ≤ 191)
  unfolding name_of
  name_of_lem ev field anonymous h = (is_empty-clip chosen 190 whole, length-clip 192 chosen)
    where
      chosen : Bytes
      chosen =
          if anonymous || is_empty (j.get_string ev (spell field))
          then module_text (codes "Foxfire.Alert.Anonymous")
          else j.get_string ev (spell field)

      whole : is_empty chosen ≡ false
      whole = elim (Bool-cases (anonymous || is_empty (j.get_string ev (spell field)))) [
        | inl yes_ ↦ rw yes_ h
        | inr no_ ↦ rw no_ (nonempty no_)
      ]
        where
          nonempty :
              (anonymous || is_empty (j.get_string ev (spell field))) ≡ false
              → is_empty (j.get_string ev (spell field)) ≡ false
          nonempty e = ground (arith, e)

  length-message_of : (ev : Data) → length (message_of j ev) ≤ 319
  unfolding message_of
  length-message_of ev = elim (Bool-cases (is_empty (j.get_string ev (spell message)))) [
    | inr flat ↦ rw flat (length-clip 320 (j.get_string ev (spell message)))
    | inl e ↦ elim (Option-cases (j.get_obj ev (spell message))) [
      | inl o ↦ rw (e, o) (omega arith)
      | inr (obj, o) ↦ rw (e, o) (length-clip 320 (j.get_string obj (spell text)))
    ]
  ]

  length-redeem_message : (ev : Data) → length (redeem_message j ev) ≤ 319
  unfolding redeem_message
  length-redeem_message ev = elim (Option-cases (j.get_obj ev (spell reward))) [
    | inl o ↦ rw (o, redeem_message) (length-clip 320 (j.get_string ev (spell user_input)))
    | inr (r, o) ↦ ground (
      arith,
      o,
      length-clip 320 (j.get_string ev (spell user_input)),
      length-clip 320 (j.get_string r (spell title)),
    )
  ]

  -- Where the locale has a text for an anonymous sender, no alert is without a name, the name and the
  -- message fit their arrays with the terminating zero, and a gift is of one subscription at least.
  pub event_facts :
      (type : Bytes) (ev : Data)
      → is_empty (module_text (codes "Foxfire.Alert.Anonymous")) ≡ false
      → (from_event j type ev).0 ≡ event
      → (let e = (from_event j type ev).1 in
          (is_empty e.name ≡ false)
          × (length e.name ≤ 191)
          × (length e.message ≤ 319)
          × ((e.kind ≢ gift) ⊎ (pos 1 ≤ℤ e.amount)))
  unfolding from_event
  event_facts type ev named h = ground (
    arith,
    name_of_lem ev user_name false named,
    name_of_lem ev user_name (get_bool ev (spell is_anonymous)) named,
    name_of_lem ev from_broadcaster false named,
    length-message_of ev,
    length-redeem_message ev,
  )
