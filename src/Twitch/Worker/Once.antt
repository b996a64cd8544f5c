-- ===== src/Twitch/Worker/Once.antt =====
-- What a whole connection, `run_once` of src/ff-twitch.c, keeps, and how often it asks for the
-- subscriptions.
use obs_foxfire.EventSub.{Sub, subs}
use obs_foxfire.Session.{Session, init, opened}
use obs_foxfire.Twitch.Panel.{retrying, connecting, failed, off}
use obs_foxfire.Twitch.Api.{Token, Renewed, renewed, rejected, unreachable}
use obs_foxfire.Twitch.Worker.{Services, read_client_id, set_text}
use obs_foxfire.Twitch.Worker.Turn.{Link, Turn, stays, next, leaves, Account, subscribe_each}
use obs_foxfire.Twitch.Worker.Run.{
  tw_url, open_link, close_link, of_opened, of_turn, run, with_token, of_renewal, run_once,
}
use obs_foxfire.Twitch.Worker.Keeps.{
  Frame, Held, frame, After, on_stays, on_next, on_leaves, Outcome-cases, state_keeps, text_keeps,
  replacement_closed, to_q, turn-After,
}
use obs_foxfire.Prelude.{
  if◌then◌else◌, Option-cases, length, Bytes, codes, is_empty, clip, ℕ, zero, suc, ◌+◌, ◌≡◌, refl,
  sym, ap, ◌∙◌, subst, ◌≢◌, ◌⊎◌, inl, inr, Bool, true, false, none, some, List, [], ◌∷◌, arith,
  if_both,
}

-- As for a turn: `P` holds before the subscriptions are asked for, `Q` from then on.
module _ (services : Services) (P Q : services.World → Type 0) (before : Frame services P)
    (behind : Frame services Q) (weaken : (w : services.World) → P w → Q w)
    (asked : (account : Account) (session_id : Bytes) (w : services.World)
      → P w
      → Q (subscribe_each services subs account session_id 0 w).1) where
  open services use {World, Socket}

  data Kept : (Bool ⊎ Link Socket) × World → Type 0 where
    done : {result : Bool} {w : World} → Q w → Kept (inl result, w)
    goes_on :
        {link : Link Socket} {w : World}
        → Held services P Q before behind link.session.subscribed w
        → Kept (inr link, w)

  open_link-Kept :
      (account : Account) (s : Session) (ran_long : Bool) (w : World)
      → Held services P Q before behind s.subscribed w
      → Kept (of_opened services ran_long (open_link services account s ran_long w))
  unfolding of_opened open_link opened
  open_link-Kept account s ran_long w p =
      let b = s.subscribed in
      let f = frame services P Q before behind b in
      let w1 =
        set_text services connecting (codes "Foxfire.Twitch.Connecting") (some account.login) none
          none w in
      let q = f.made w1 s.url (
        text_keeps services P Q before behind b connecting (codes "Foxfire.Twitch.Connecting")
          (some account.login) none none w p) in
      elim (Outcome-cases (services.open_socket w1 s.url).0) [
        | inl (why, e) ↦
            rw (of_opened, open_link, e)
              (done (
                to_q services P Q before behind weaken b _
                  (state_keeps services P Q before behind b retrying why _ q)))
        | inr (net, e) ↦ rw (of_opened, open_link, e) (goes_on (f.timed _ (f.timed _ q)))
      ]

  close_kept :
      (link : Link Socket) (w : World)
      → Held services P Q before behind link.session.subscribed w
      → Held services P Q before behind link.session.subscribed (close_link services link w)
  unfolding close_link
  close_kept link w p =
      let b = link.session.subscribed in
      (frame services P Q before behind b).closed_with _ link.net 1000
        (replacement_closed services P Q before behind b link.replacement w p)

  of_turn-Kept :
      (account : Account) (t : Turn Socket × World)
      → After services P Q before behind t
      → Kept (of_turn services account t)
  unfolding of_turn
  of_turn-Kept account (stays link, w) (on_stays p) = goes_on p
  of_turn-Kept account (next link, w) (on_next p) = goes_on p
  of_turn-Kept account (leaves link false, w) (on_leaves p) =
      done (to_q services P Q before behind weaken link.session.subscribed _ (close_kept link w p))
  of_turn-Kept account (leaves link true, w) (on_leaves p) =
      open_link-Kept account link.session link.ran_long _ (close_kept link w p)

  run-Kept :
      (turns : ℕ) (account : Account) (x : (Bool ⊎ Link Socket) × World)
      → Kept x
      → Q (run services turns account x).1
  unfolding run
  run-Kept zero account (inl result, w) (done p) = p
  run-Kept zero account (inr link, w) (goes_on p) =
      to_q services P Q before behind weaken link.session.subscribed w p
  run-Kept (suc turns) account (inl result, w) (done p) = p
  run-Kept (suc turns) account (inr link, w) (goes_on p) =
      run-Kept turns account _ (
        of_turn-Kept account _
          (turn-After services P Q before behind weaken asked account link w p))

  token_kept :
      (turns : ℕ) (cid : Bytes) (tok : Token) (w : World)
      → P w
      → Q (with_token services turns cid tok w).1
  unfolding with_token init
  token_kept turns cid tok w p =
      let w2 = if is_empty tok.refresh then w else (services.token_save w tok).1 in
      let p2 : P w2 = if_both P _ _ _ p (before.saved w tok p) in
      let q = before.identified w2 cid tok.access p2 in
      elim (Outcome-cases (services.user_id w2 cid tok.access).0) [
        | inl (why, e) ↦
            rw (with_token, e)
              (weaken _ (state_keeps services P Q before behind false retrying why _ q))
        | inr ((user, login), e) ↦
            let account : Account = record {
              client_id = cid;
              access = tok.access;
              user = user;
              login = login;
            } in
            rw (with_token, e)
              (run-Kept turns account _ (open_link-Kept account (init tw_url) false _ q))
      ]

  renewal_kept :
      (turns : ℕ) (cid : Bytes) (r : Renewed) (w : World)
      → P w
      → ((why : Bytes) → r ≡ rejected why → P (services.token_forget w))
      → Q (of_renewal services turns cid r w).1
  unfolding of_renewal
  renewal_kept turns cid (rejected why) w p back = weaken _ (
      state_keeps services P Q before behind false failed why (services.token_forget w)
        (back why refl))
  renewal_kept turns cid (unreachable why) w p back =
      weaken _ (state_keeps services P Q before behind false retrying why w p)
  renewal_kept turns cid (renewed tok) w p back = token_kept turns cid tok w p

  pub once_kept :
      (turns : ℕ) (w : World)
      → ((w' : World) (id token why : Bytes)
          → P w'
          → (services.refresh w' id token).0 ≡ rejected why
          → P (services.token_forget (services.refresh w' id token).1))
      → P w
      → Q (run_once services turns w).1
  unfolding run_once
  once_kept turns w back p =
      let w1 = (services.locked read_client_id w).1 in
      let cid = clip 256 (services.locked read_client_id w).0 in
      let p1 = before.section read_client_id w p in
      let p2 = before.loaded w1 p1 in
      let w2 = (services.token_load w1).1 in
      elim (Option-cases (services.token_load w1).0) [
        | inl e ↦
            rw (run_once, e) (weaken _ (state_keeps services P Q before behind false off _ w2 p2))
        | inr (saved, e) ↦
            rw (run_once, e)
              (renewal_kept turns cid _ _ (before.refreshed w2 cid saved.refresh p2)
                (λ why e. back w2 cid saved.refresh why p2 e))
      ]

-- What is known of a count that only `subscribe` moves.
pub frame_of :
    (services : Services) (count : services.World → ℕ) (R : ℕ → Type 0)
    → ((n : ℕ) → Frame services (λ w. count w ≡ n))
    → Frame services (λ w. R (count w))
frame_of services count R still = record {
  section = λ f w p. subst R (sym ((still (count w)).section f w refl)) p;
  reported = λ w s line p. subst R (sym ((still (count w)).reported w s line refl)) p;
  emitted = λ w ev p. subst R (sym ((still (count w)).emitted w ev refl)) p;
  timed = λ w p. subst R (sym ((still (count w)).timed w refl)) p;
  allocated = λ w n p. subst R (sym ((still (count w)).allocated w n refl)) p;
  loaded = λ w p. subst R (sym ((still (count w)).loaded w refl)) p;
  saved = λ w t p. subst R (sym ((still (count w)).saved w t refl)) p;
  refreshed = λ w id token p. subst R (sym ((still (count w)).refreshed w id token refl)) p;
  identified = λ w id access p. subst R (sym ((still (count w)).identified w id access refl)) p;
  made = λ w url p. subst R (sym ((still (count w)).made w url refl)) p;
  polled = λ w s p. subst R (sym ((still (count w)).polled w s refl)) p;
  waited = λ w s n p. subst R (sym ((still (count w)).waited w s n refl)) p;
  closed = λ w s p. subst R (sym ((still (count w)).closed w s refl)) p;
  closed_with = λ w s n p. subst R (sym ((still (count w)).closed_with w s n refl)) p;
}

-- Each subscription of a list is asked for once.
count_each :
    (services : Services) (count : services.World → ℕ)
    → ((w : services.World) (id access : Bytes) (sub : Sub) (user session_id : Bytes)
        → count (services.subscribe w id access sub user session_id).1 ≡ count w + 1)
    → (l : List Sub) (account : Account) (session_id : Bytes) (ok : ℕ) (w : services.World)
    → count (subscribe_each services l account session_id ok w).1 ≡ count w + length l
unfolding subscribe_each
count_each services count counts [] account session_id ok w = omega arith
count_each services count counts (sub ∷ rest) account session_id ok w =
    let w' =
      (services.subscribe w account.client_id account.access sub account.user session_id).1 in
    omega (
      arith,
      counts w account.client_id account.access sub account.user session_id,
      count_each services count counts rest account session_id _ w',
    )

each_keeps :
    (services : Services) (P : services.World → Type 0)
    → ((w : services.World) (id access : Bytes) (sub : Sub) (user session_id : Bytes)
        → P w
        → P (services.subscribe w id access sub user session_id).1)
    → (l : List Sub) (account : Account) (session_id : Bytes) (ok : ℕ) (w : services.World) → P w
    → P (subscribe_each services l account session_id ok w).1
unfolding subscribe_each
each_keeps services P asks [] account session_id ok w p = p
each_keeps services P asks (sub ∷ rest) account session_id ok w p =
    each_keeps services P asks rest account session_id _ _
      (asks w account.client_id account.access sub account.user session_id p)

-- Over a whole connection, however long it is and however often it moves to another socket, the subscriptions are
-- asked for all together once or not at all: a count that `subscribe` raises by one and nothing else changes is the
-- same afterwards, or higher by their number.
pub run_once-subscribe :
    (services : Services) (count : services.World → ℕ)
    → ((n : ℕ) → Frame services (λ w. count w ≡ n))
    → ((w : services.World) → count (services.token_forget w) ≡ count w)
    → ((w : services.World) (id access : Bytes) (sub : Sub) (user session_id : Bytes)
        → count (services.subscribe w id access sub user session_id).1 ≡ count w + 1)
    → (turns : ℕ) (w : services.World)
    → (count (run_once services turns w).1 ≡ count w)
      ⊎ (count (run_once services turns w).1 ≡ count w + length subs)
run_once-subscribe services count still forgets counts turns w =
    once_kept services (λ w'. count w' ≡ count w)
      (λ w'. (count w' ≡ count w) ⊎ (count w' ≡ count w + length subs)) (still (count w))
      (frame_of services count (λ n. (n ≡ count w) ⊎ (n ≡ count w + length subs)) still)
      (λ w' e. inl e)
      (λ account session_id w' e. inr (
        count_each services count counts subs account session_id 0 w'
        ∙ ap (λ n. n + length subs) e))
      turns w (λ w' id token why e r. forgets _ ∙ ((still (count w)).refreshed w' id token e)) refl

-- A whole run_once removes the stored sign-in only when the renewal answers `rejected`, which it also does when
-- nothing could be asked: if, whatever the state of the world, no renewal answers that, then run_once keeps whatever
-- all the other operations keep, so also a sign-in that is stored.
pub run_once_keeps :
    (services : Services) (P : services.World → Type 0)
    → Frame services P
    → ((w : services.World) (id access : Bytes) (sub : Sub) (user session_id : Bytes)
        → P w
        → P (services.subscribe w id access sub user session_id).1)
    → ((w : services.World) (id token why : Bytes)
        → P w
        → (services.refresh w id token).0 ≢ rejected why)
    → (turns : ℕ) (w : services.World) → P w
    → P (run_once services turns w).1
run_once_keeps services P still asks never turns w p =
    once_kept services P P still still (λ w' q. q)
      (λ account session_id w' q. each_keeps services P asks subs account session_id 0 w' q) turns w
      (λ w' id token why q e. absurd (never w' id token why q e)) p
