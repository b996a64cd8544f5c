-- ===== src/Alert/Account.antt =====
-- The account of the alerts over any operations on the source of src/ff-alert-source.c.
use obs_foxfire.Queue.{Event, Kind, follow, sub, resub, gift, bits, raid, redeem, kind_value}
use obs_foxfire.Queue.Invariant.{IsValid}
use mathlib.Core.List.{map-append}
use obs_foxfire.Alert.{Host, Source, update_properties}
use obs_foxfire.Alert.Play.{body_of, test_event, on_skip, on_test_fire, on_twitch_changed, kind_of}
use obs_foxfire.Alert.Page.{props, on_twitch_connect, on_twitch_sign_out}
use obs_foxfire.Alert.Steps.{
  Act, event, frame, drawn, shown, test_pressed, skip_pressed, connect_pressed, sign_out_pressed,
  feed_changed, do_act, do_acts, fired, waiting, Same, same, asks-Same,
}
use obs_foxfire.Alert.Fates.{Accounts, of_Same, retimed, arrived, tick-Accounts, enqueue-Accounts}
use obs_foxfire.Alert.Quiet.{render-Quiet, text_kind-Quiet}
use obs_foxfire.Prelude.{
  Bytes, ◌≡◌, refl, sym, ap, ◌∙◌, some, List, [], ◌∷◌, ◌++◌, map, append_assoc, arith,
}
use obs_foxfire.Prelude.Int.{pos}

kind_of-kind_value : (k : Kind) → kind_of (pos (kind_value k)) ≡ some k
unfolding kind_of kind_value
kind_of-kind_value follow = refl
kind_of-kind_value sub = refl
kind_of-kind_value resub = refl
kind_of-kind_value gift = refl
kind_of-kind_value bits = refl
kind_of-kind_value raid = refl
kind_of-kind_value redeem = refl

module _ (host : Host) (sentence : Bytes → Bytes) where
  untouched : {a b : Source} → IsValid a.queue → Same a b → Accounts host a [] b
  untouched v s = of_Same host v s

  -- One operation, with the alert that it takes in.
  do_act-Accounts :
      (a : Source) (x : Act)
      → IsValid a.queue
      → Accounts host a (arrived a x) (do_act host sentence a x)
  unfolding do_act arrived props on_test_fire on_skip on_twitch_connect on_twitch_sign_out
      on_twitch_changed
  do_act-Accounts a (event k e) v = enqueue-Accounts host a k e v
  do_act-Accounts a (frame dt) v = tick-Accounts host a dt v
  do_act-Accounts a drawn v = untouched v (render-Quiet host a).keeps
  do_act-Accounts a shown v = untouched v (text_kind-Quiet host a).keeps
  do_act-Accounts a test_pressed v =
      rw (kind_of-kind_value a.test_kind) at
        (enqueue-Accounts host a (pos (kind_value a.test_kind)) (test_event a.test_kind) v)
  do_act-Accounts a skip_pressed v =
      retimed host a.playing a.duration (of_Same host v (same (on_skip a)))
  do_act-Accounts a connect_pressed v = untouched v (ground arith)
  do_act-Accounts a sign_out_pressed v = untouched v (ground arith)
  do_act-Accounts a feed_changed v = untouched v (asks-Same update_properties a refl)

  -- The alerts that are taken in over a sequence of operations, in their order.
  unfoldable pub arrivals : Source → List Act → List Event
  arrivals a [] = []
  arrivals a (x ∷ xs) = arrived a x ++ arrivals (do_act host sentence a x) xs

  Accounts-append :
      {a b c : Source} (m n : List Event)
      → Accounts host a m b
      → Accounts host b n c
      → Accounts host a (m ++ n) c
  Accounts-append {a} {b} {c} m n p q =
      let f = body_of host a.kinds in
      record {
        accounts_kinds = q.accounts_kinds ∙ p.accounts_kinds;
        accounts_valid = q.accounts_valid;
        accounts_all =
            rw (p.accounts_kinds) at q.accounts_all
            ∙ ap (λ t. fired b.calls ++ t) (map-append f (waiting b) n)
            ∙ sym (append_assoc (fired b.calls) (map f (waiting b)) (map f n))
            ∙ ap (λ t. t ++ map f n) p.accounts_all
            ∙ append_assoc (fired a.calls) (map f (waiting a ++ m)) (map f n)
            ∙ ap (λ t. fired a.calls ++ t)
                (sym (map-append f (waiting a ++ m) n) ∙ ap (map f) (append_assoc (waiting a) m n));
      }

  -- Between two changes of the settings, and while nothing is cleared: the texts of the alerts that
  -- were started, followed by those of the alerts that wait, are those that were there before,
  -- followed by those of the alerts taken in, in the order in which they came. An alert is taken in
  -- exactly if its kind is known and switched on and fewer than 64 wait. So none is lost, shown
  -- twice or overtaken, whatever frames, pages and presses of Skip and Test lie between, and whether
  -- the source is paused or not. The ring stays well formed, and the settings of the kinds stay as
  -- they are.
  pub do_acts-Accounts :
      (xs : List Act) (a : Source)
      → IsValid a.queue
      → Accounts host a (arrivals a xs) (do_acts host sentence a xs)
  unfolding do_acts arrivals
  do_acts-Accounts [] a v = untouched v (same a)
  do_acts-Accounts (x ∷ xs) a v =
      let one = do_act-Accounts a x v in
      Accounts-append (arrived a x) (arrivals (do_act host sentence a x) xs) one
        (do_acts-Accounts xs (do_act host sentence a x) one.accounts_valid)
