-- ===== src/Twitch/Worker/Run.antt =====
-- One connection, `run_once` of src/ff-twitch.c: the loop over one socket and its replacement, and the
-- loop over sockets, which are one recursion here.
use obs_foxfire.Session.{Session, init, opened}
use obs_foxfire.Twitch.Panel.{connecting, retrying, failed, off}
use obs_foxfire.Twitch.Api.{Token, Outcome, fine, trouble, Renewed, renewed, rejected, unreachable}
use obs_foxfire.Twitch.Worker.{Services, read_client_id, set_state, set_text}
use obs_foxfire.Twitch.Worker.Turn.{
  Link, Turn, stays, next, leaves, Account, close_replacement, turn,
}
use obs_foxfire.Prelude.{
  if◌then◌else◌, Bytes, codes, is_empty, clip, ℕ, zero, suc, ◌⊎◌, inl, inr, Bool, true, false, none,
  some,
}

-- FF_TW_URL
abbrev pub tw_url : Bytes
tw_url = codes "wss://eventsub.wss.twitch.tv/ws"

-- What `run_once` returns; `unfinished` is the model's own.
pub data Ran : Type 0 where
  ran : Bool → Ran
  unfinished : Ran

module _ (services : Services) where
  open services use {World, Socket, text, locked, time, open_socket, close_with}

  -- The start of the outer loop: a socket at the session's URL.
  unfoldable pub open_link : Account → Session → Bool → World → Outcome (Link Socket) × World
  unfolding set_text set_state
  open_link account s ran_long w =
      let w1 =
        set_text services connecting (codes "Foxfire.Twitch.Connecting") (some account.login) none
          none w in
      let (o, w2) = open_socket w1 s.url in
      elim o [
        | trouble why ↦ (trouble why, set_state services retrying why w2)
        | fine net ↦
            let (now, w3) = time w2 in
            let (started, w4) = time w3 in
            (
              fine (record {
                session = opened s now;
                net = net;
                replacement = none;
                started = started;
                ran_long = ran_long;
              }),
              w4,
            )
      ]

  unfoldable pub close_link : Link Socket → World → World
  unfolding close_replacement
  close_link link w = close_with (close_replacement services link.replacement w) link.net 1000

  -- What the loop over sockets does with a socket that was opened, or not.
  unfoldable pub of_opened : Bool → Outcome (Link Socket) × World → (Bool ⊎ Link Socket) × World
  of_opened ran_long (trouble why, w) = (inl ran_long, w)
  of_opened ran_long (fine link, w) = (inr link, w)

  -- What follows a turn: the result of `run_once`, or the link that the next turn is for.
  unfoldable pub of_turn : Account → Turn Socket × World → (Bool ⊎ Link Socket) × World
  unfolding open_link close_link of_opened
  of_turn account (stays link, w) = (inr link, w)
  of_turn account (next link, w) = (inr link, w)
  of_turn account (leaves link false, w) = (inl link.ran_long, close_link link w)
  of_turn account (leaves link true, w) =
      of_opened link.ran_long (open_link account link.session link.ran_long (close_link link w))

  -- Both loops, at most `turns` turns.
  unfoldable pub run : ℕ → Account → (Bool ⊎ Link Socket) × World → Ran × World
  unfolding turn of_turn
  run zero account (inl result, w) = (ran result, w)
  run zero account (inr link, w) = (unfinished, w)
  run (suc turns) account (inl result, w) = (ran result, w)
  run (suc turns) account (inr link, w) =
      run turns account (of_turn account (turn services account link w))

  -- `run_once` from the renewed sign-in on.
  unfoldable pub with_token : ℕ → Bytes → Token → World → Ran × World
  unfolding run open_link of_opened set_state
  with_token turns cid tok w =
      let (saved, w1) = services.token_save w tok in
      let w2 = if is_empty tok.refresh then w else w1 in
      let (who, w3) = services.user_id w2 cid tok.access in
      elim who [
        | trouble why ↦ (ran false, set_state services retrying why w3)
        | fine (user, login) ↦
            let account : Account = record {
              client_id = cid;
              access = tok.access;
              user = user;
              login = login;
            } in
            run turns account (of_opened false (open_link account (init tw_url) false w3))
      ]

  unfoldable pub of_renewal : ℕ → Bytes → Renewed → World → Ran × World
  unfolding with_token set_state
  of_renewal turns cid (rejected why) w =
      (ran false, set_state services failed why (services.token_forget w))
  of_renewal turns cid (unreachable why) w = (ran false, set_state services retrying why w)
  of_renewal turns cid (renewed tok) w = with_token turns cid tok w

  -- `run_once`
  unfoldable pub run_once : ℕ → World → Ran × World
  unfolding of_renewal set_state
  run_once turns w =
      let (id, w1) = locked read_client_id w in
      let cid = clip 256 id in
      let (loaded, w2) = services.token_load w1 in
      elim loaded [
        | none ↦ (ran false, set_state services off (text (codes "Foxfire.Twitch.NotSignedIn")) w2)
        | some saved ↦
            let (r, w3) = services.refresh w2 cid saved.refresh in of_renewal turns cid r w3
      ]
