-- ===== src/Twitch/Worker/Keeps.antt =====
-- What one connection leaves as it is, and how often it asks for the subscriptions.
use obs_foxfire.EventSub.{subs, Json, Result, welcome, reconnect, handle}
use obs_foxfire.Queue.{Event}
use obs_foxfire.Prelude.Text.{decimal_ℤ}
use obs_foxfire.Session.{
  idle, decide, on_message, on_subscribed, adopt, Session, Step, nothing, subscribe, emit,
  reconnect_now, drop_it, note,
}
use obs_foxfire.Twitch.Panel.{retrying, live, State, Panel, set_line}
use obs_foxfire.Twitch.Api.{Token, Outcome, fine, trouble}
use obs_foxfire.Twitch.Worker.{
  Services, Arrival, lost, quiet, arrived, read_running, read_enabled, show_line, set_state,
  set_text,
}
use obs_foxfire.Twitch.Worker.Turn.{
  leaves, check_handover, move_over, hear, heard_replacement, poll_replacement, subscribe_each,
  show_live, subscribe_all, end_turn, close_replacement, open_replacement, act, on_step, on_quiet,
  heard_net, poll_net, turn, Link, Account, Turn, stays, next,
}
use obs_foxfire.Prelude.{
  Bool-cases, Option-cases, length, Bytes, codes, clip, cstr, ℕ, ◌+◌, ◌≡◌, refl, sym, subst, ◌⊎◌,
  inl, inr, Bool, true, false, Option, none, some, [], arith, if_both,
}
use obs_foxfire.Prelude.Int.{ℤ, pos, ◌-ℤ◌, ltb_ℤ}

-- A property of the world that every operation of a connection keeps, but for `subscribe` and
-- `token_forget`.
pub record Frame (services : Services) (P : services.World → Type 0) : Type 1 where
  pub section :
      {A : Type 0} (f : Panel → A × Panel) (w : services.World) → P w → P (services.locked f w).1
  pub reported :
      (w : services.World) (s : State) (line : Bytes) → P w → P (services.report w s line)
  pub emitted : (w : services.World) (ev : Event) → P w → P (services.emit w ev)
  pub timed : (w : services.World) → P w → P (services.time w).1
  pub allocated : (w : services.World) (n : ℕ) → P w → P (services.alloc w n).1
  pub loaded : (w : services.World) → P w → P (services.token_load w).1
  pub saved : (w : services.World) (t : Token) → P w → P (services.token_save w t).1
  pub refreshed : (w : services.World) (id token : Bytes) → P w → P (services.refresh w id token).1
  pub identified :
      (w : services.World) (id access : Bytes) → P w → P (services.user_id w id access).1
  pub made : (w : services.World) (url : Bytes) → P w → P (services.open_socket w url).1
  pub polled : (w : services.World) (s : services.Socket) → P w → P (services.poll w s).2
  pub waited : (w : services.World) (s : services.Socket) (n : ℕ) → P w → P (services.wait w s n)
  pub closed : (w : services.World) (s : services.Socket) → P w → P (services.close w s)
  pub closed_with :
      (w : services.World) (s : services.Socket) (n : ℕ) → P w → P (services.close_with w s n)

decide_kept :
    (s : Session) (r : Result) (now : ℤ)
    → ((decide s r now).1.subscribed ≡ s.subscribed)
      × ((decide s r now).0 ≡ subscribe → s.subscribed ≡ false)
unfolding decide
decide_kept s welcome now = ground arith
decide_kept s reconnect now = ground arith
decide_kept s _ now = ground arith

message_kept :
    (j : Json) (s : Session) (text : Bytes) (now : ℤ) (ev : Event)
    → (let (step, s', ev') = on_message j s text now ev in
        (s'.subscribed ≡ s.subscribed) × (step ≡ subscribe → s.subscribed ≡ false))
unfolding on_message
message_kept j s text now ev =
    decide_kept (record s { es = (handle j s.es text ev).1; last_message = now; reason = [] }) _ now

pub Outcome-cases :
    {A : Type 0} (o : Outcome A) → ((why : Bytes) × (o ≡ trouble why)) ⊎ ((a : A) × (o ≡ fine a))
Outcome-cases (trouble why) = inl (why, refl)
Outcome-cases (fine a) = inr (a, refl)

idle_kept : (s : Session) (now : ℤ) → (idle s now).1.subscribed ≡ s.subscribed
unfolding idle
idle_kept s now = ground arith

after_subscribing : (s : Session) (a t : ℤ) → (on_subscribed s a t).1.subscribed ≡ true
unfolding on_subscribed
after_subscribing s a t = ground arith

-- `P` holds before the subscriptions are asked for, `Q` from then on.
module _ (services : Services) (P Q : services.World → Type 0) (before : Frame services P)
    (behind : Frame services Q) where
  open services use {World, Socket}

  abbrev pub Held : Bool → World → Type 0
  Held true = Q
  Held false = P

  pub frame : (b : Bool) → Frame services (Held b)
  frame true = behind
  frame false = before

  pub show_keeps :
      (b : Bool) (s : State) (line : Bytes) (w : World)
      → Held b w
      → Held b (show_line services s line w)
  unfolding show_line
  show_keeps b s line w p =
      let q = (frame b).section (λ t. set_line t s line) w p in
      if_both (Held b) _ _ _ ((frame b).reported _ s line q) q

  pub state_keeps :
      (b : Bool) (s : State) (line : Bytes) (w : World)
      → Held b w
      → Held b (set_state services s line w)
  unfolding set_state
  state_keeps b s line w p = show_keeps b s _ w p

  pub text_keeps :
      (b : Bool) (s : State) (key : Bytes) (x y z : Option Bytes) (w : World)
      → Held b w
      → Held b (set_text services s key x y z w)
  unfolding set_text
  text_keeps b s key x y z w p = show_keeps b s _ w p

  pub data After : Turn Socket × World → Type 0 where
    on_stays :
        {link : Link Socket} {w : World} → Held link.session.subscribed w → After (stays link, w)
    on_next :
        {link : Link Socket} {w : World} → Held link.session.subscribed w → After (next link, w)
    on_leaves :
        {link : Link Socket} {again : Bool} {w : World}
        → Held link.session.subscribed w
        → After (leaves link again, w)

  pub replacement_closed :
      (b : Bool) (o : Option (Socket × Session)) (w : World)
      → Held b w
      → Held b (close_replacement services o w)
  unfolding close_replacement
  replacement_closed b none w p = p
  replacement_closed b (some (s, ps)) w p = (frame b).closed w s p

  module _ (weaken : (w : World) → P w → Q w) where
    pub to_q : (b : Bool) (w : World) → Held b w → Q w
    to_q true w p = p
    to_q false w p = weaken w p

    check_handover-After :
        (link : Link Socket) (r : Socket × Session) (w : World)
        → Held link.session.subscribed w
        → After (check_handover services link r w)
    unfolding check_handover
    check_handover-After link (s, ps) w p =
        let b = link.session.subscribed in
        let q = (frame b).timed w p in
        if_both After _ _ _ (on_leaves ((frame b).closed _ s q)) (on_stays q)

    move_over-After :
        (link : Link Socket) (r : Socket × Session) (w : World)
        → Held link.session.subscribed w
        → After (move_over services link r w)
    unfolding move_over adopt
    move_over-After link (s, ps) w p =
        let b = link.session.subscribed in
        let q = (frame b).timed _ ((frame b).timed _ ((frame b).closed_with w link.net 1000 p)) in
        if_both After _ _ _ (on_next (to_q b _ q)) (check_handover-After link (s, ps) w p)

    heard_keeps :
        (b : Bool) (s : Session) (payload : Bytes) (w : World)
        → Held b w
        → Held b (hear services s payload w).1
    unfolding hear
    heard_keeps b s payload w p =
        let q = (frame b).allocated w _ p in
        if_both {A = Option (Step × Session × Event) × World} (λ x. Held b x.1) _ _ _
          ((frame b).timed _ q) q

    heard_replacement-After :
        (link : Link Socket) (r : Socket × Session) (a : Arrival) (w : World)
        → Held link.session.subscribed w
        → After (heard_replacement services link r a w)
    unfolding heard_replacement
    heard_replacement-After link (s, ps) lost w p =
        on_stays ((frame link.session.subscribed).closed w s p)
    heard_replacement-After link (s, ps) quiet w p = check_handover-After link (s, ps) w p
    heard_replacement-After link (s, ps) (arrived payload) w p =
        let q = heard_keeps link.session.subscribed ps payload w p in
        elim (Option-cases (hear services ps payload w).0) [
          | inl e ↦ rw (heard_replacement, e) (move_over-After link (s, ps) _ q)
          | inr ((step, ps', ev), e) ↦ rw (heard_replacement, e) (move_over-After link (s, ps') _ q)
        ]

    poll_replacement-After :
        (link : Link Socket) (o : Option (Socket × Session)) (w : World)
        → Held link.session.subscribed w
        → After (poll_replacement services link o w)
    unfolding poll_replacement
    poll_replacement-After link none w p = on_stays p
    poll_replacement-After link (some (s, ps)) w p =
        heard_replacement-After link _ _ _ ((frame link.session.subscribed).polled w s p)

    end_turn-After :
        (link : Link Socket) (w : World)
        → Held link.session.subscribed w
        → After (end_turn services link w)
    unfolding end_turn
    end_turn-After link w p =
        let q = (frame link.session.subscribed).timed w p in
        elim (Bool-cases (ltb_ℤ (pos 60) ((services.time w).0 -ℤ link.started))) [
          | inl long ↦ rw (end_turn, long) (on_next q)
          | inr short ↦ rw (end_turn, short) (on_next q)
        ]

    open_replacement-After :
        (link : Link Socket) (w : World)
        → Held link.session.subscribed w
        → After (open_replacement services link w)
    unfolding open_replacement
    open_replacement-After link w p =
        let b = link.session.subscribed in
        let q = (frame b).made _ link.session.url (replacement_closed b link.replacement w p) in
        elim (Outcome-cases
          (services.open_socket (close_replacement services link.replacement w)
            link.session.url).0) [
              | inl (why, e) ↦ rw (open_replacement, e) (on_leaves q)
              | inr (socket, e) ↦
                  rw (open_replacement, e) (end_turn-After _ _ ((frame b).timed _ q))
            ]

    act-After :
        (link : Link Socket) (step : Step) (ev : Event) (w : World)
        → Held link.session.subscribed w
        → After (act services link step ev w)
    unfolding act
    act-After link nothing ev w p = end_turn-After link w p
    act-After link subscribe ev w p = end_turn-After link w p
    act-After link note ev w p = end_turn-After link w p
    act-After link emit ev w p =
        end_turn-After link _ ((frame link.session.subscribed).emitted w ev p)
    act-After link reconnect_now ev w p = open_replacement-After link w p
    act-After link drop_it ev w p =
        on_leaves (state_keeps link.session.subscribed retrying link.session.reason w p)

    module _
        (asked : (account : Account) (session_id : Bytes) (w : World)
          → P w
          → Q (subscribe_each services subs account session_id 0 w).1) where
      live_shown :
          (account : Account) (ok : ℕ) (step : Step) (w : World)
          → Q w
          → Q (show_live services account ok step w)
      unfolding show_live
      live_shown account ok drop_it w p = p
      live_shown account ok _ w p =
          text_keeps true live (codes "Foxfire.Twitch.Live") (some (clip 16 (decimal_ℤ (pos ok))))
            (some (clip 16 (decimal_ℤ (pos (length subs))))) (some account.login) w p

      subscribe_all-After :
          (account : Account) (link : Link Socket) (s : Session) (ev : Event) (w : World)
          → P w
          → After (on_step services account link (subscribe, s, ev) w)
      unfolding on_step subscribe_all
      subscribe_all-After account link s ev w p =
          let (ok, w1) = subscribe_each services subs account s.es.session_id 0 w in
          let (step, s') = on_subscribed s (pos ok) (pos (length subs)) in
          let w2 = show_live services account ok step w1 in
          act-After (record link { session = s' }) step ev w2
            (subst (λ b. Held b w2) (sym (after_subscribing s (pos ok) (pos (length subs))))
              (live_shown account ok step w1 (asked account s.es.session_id w p)))

      on_step-After :
          (account : Account) (link : Link Socket) (r : Step × Session × Event) (w : World)
          → (r.0 ≡ subscribe → P w)
          → Held r.1.subscribed w
          → After (on_step services account link r w)
      unfolding on_step
      on_step-After account link (subscribe, s, ev) w ask p =
          subscribe_all-After account link s ev w (ask refl)
      on_step-After account link (nothing, s, ev) w ask p = act-After _ nothing ev w p
      on_step-After account link (note, s, ev) w ask p = act-After _ note ev w p
      on_step-After account link (emit, s, ev) w ask p = act-After _ emit ev w p
      on_step-After account link (reconnect_now, s, ev) w ask p = act-After _ reconnect_now ev w p
      on_step-After account link (drop_it, s, ev) w ask p = act-After _ drop_it ev w p

      on_quiet-After :
          (link : Link Socket) (r : Step × Session) (w : World)
          → Held r.1.subscribed w
          → After (on_quiet services link r w)
      unfolding on_quiet
      on_quiet-After link (nothing, s) w p = on_next ((frame s.subscribed).waited w link.net 200 p)
      on_quiet-After link (subscribe, s) w p = act-After _ subscribe services.unset w p
      on_quiet-After link (note, s) w p = act-After _ note services.unset w p
      on_quiet-After link (emit, s) w p = act-After _ emit services.unset w p
      on_quiet-After link (reconnect_now, s) w p = act-After _ reconnect_now services.unset w p
      on_quiet-After link (drop_it, s) w p = act-After _ drop_it services.unset w p

      unsubscribed : (b : Bool) (w : World) → b ≡ false → Held b w → P w
      unsubscribed b w e p = subst (λ b. Held b w) e p

      hear_cases :
          (s : Session) (payload : Bytes) (w : World)
          → ((hear services s payload w).0 ≡ none)
            ⊎ ((now : ℤ) × ((hear services s payload w).0
                  ≡ some (on_message services.json s (cstr payload) now services.unset)))
      unfolding hear
      hear_cases s payload w = elim (Bool-cases (services.alloc w (length payload + 1)).0) [
        | inl e ↦
            inr ((services.time (services.alloc w (length payload + 1)).1).0, rw (hear, e) refl)
        | inr e ↦ inl (rw (hear, e) refl)
      ]

      heard_net-After :
          (account : Account) (link : Link Socket) (a : Arrival) (w : World)
          → Held link.session.subscribed w
          → After (heard_net services account link a w)
      unfolding heard_net
      heard_net-After account link lost w p =
          on_leaves (state_keeps link.session.subscribed retrying (services.error_of link.net) w p)
      heard_net-After account link quiet w p =
          let now = (services.time w).0 in
          let w1 = (services.time w).1 in
          on_quiet-After link (idle link.session now) w1 (
            subst (λ b. Held b w1) (sym (idle_kept link.session now))
              ((frame link.session.subscribed).timed w p))
      heard_net-After account link (arrived payload) w p =
          let w1 = (hear services link.session payload w).1 in
          let q = heard_keeps link.session.subscribed link.session payload w p in
          elim (hear_cases link.session payload w) [
            | inl e ↦
                rw (heard_net, e)
                  (on_leaves (
                    state_keeps link.session.subscribed retrying
                      (codes "ran out of memory reading an event from Twitch") w1 q))
            | inr (now, e) ↦
                let k = message_kept services.json link.session (cstr payload) now services.unset in
                rw (heard_net, e)
                  (on_step-After account link
                    (on_message services.json link.session (cstr payload) now services.unset) w1
                    (λ asks. unsubscribed link.session.subscribed w1 (k.1 asks) q)
                    (subst (λ b. Held b w1) (sym k.0) q))
          ]

      poll_net-After :
          (account : Account) (t : Turn Socket × World)
          → After t
          → After (poll_net services account t)
      unfolding poll_net
      poll_net-After account (stays link, w) (on_stays p) =
          heard_net-After account _ _ _ ((frame link.session.subscribed).polled w link.net p)
      poll_net-After account (next link, w) h = h
      poll_net-After account (leaves link again, w) h = h

      pub turn-After :
          (account : Account) (link : Link Socket) (w : World)
          → Held link.session.subscribed w
          → After (turn services account link w)
      unfolding turn
      turn-After account link w p =
          let b = link.session.subscribed in
          let q1 = (frame b).section read_running w p in
          let q2 = (frame b).section read_enabled _ q1 in
          if_both After _ _ _
            (if_both After _ _ _
              (poll_net-After account _ (poll_replacement-After link link.replacement _ q2))
              (on_leaves q2))
            (on_leaves q1)
