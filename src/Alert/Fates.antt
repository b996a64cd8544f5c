-- ===== src/Alert/Fates.antt =====
-- What becomes of the alerts that the source of src/ff-alert-source.c takes in.
use obs_foxfire.Queue.{Event, Queue, Kind, push, pop, kind_value, kind_id}
use obs_foxfire.Queue.Invariant.{IsValid, push-IsValid, pop-IsValid}
use obs_foxfire.Queue.Fifo.{view}
use obs_foxfire.Queue.Fifo.Ends.{Popped, popped_none, popped_some, pop-Popped, push_waiting}
use obs_foxfire.Alert.{
  Real, Host, Source, asks, log, restart, stop, unknown_kind, switched_off, ensure_sound_child,
}
use obs_foxfire.Alert.Play.{
  body_of, tell_removed, draw_body, choose_art, choose_sound, restart_sound, start_alert,
  start_next, stop_sound, finish, tick, kind_of, enqueue_known, enqueue, test_event,
}
use obs_foxfire.Alert.Steps.{
  Act, event, test_pressed, fired, waiting, Same, same, Same-trans, asks-Same,
}
use obs_foxfire.Alert.Quiet.{
  Quiet-trans, tell_queued-Quiet, ensure_sound_child-Quiet, tell_removed-Quiet, choose_art-Quiet,
  choose_sound-Quiet, draw_body-Quiet,
}
use obs_foxfire.Prelude.{
  ltb, if◌then◌else◌, Bool-cases, Option-cases, length, clip, ◌≡◌, refl, ap, ◌∙◌, inl, inr, Bool,
  true, false, not, ◌&&◌, Option, none, some, List, [], ◌∷◌, ◌++◌, map, append-nil, append_assoc,
  arith, if_both, given, given_both,
}
use obs_foxfire.Prelude.Int.{ℤ, pos}

-- The start of an alert: it is on the screen from its beginning, and nothing else is started.
pub record Started (host : Host) (a : Source) (e : Event) (b : Source) : Type 0 where
  pub started_kinds : b.kinds ≡ a.kinds
  pub started_queue : b.queue ≡ a.queue
  pub started_paused : b.paused ≡ a.paused
  pub started_duration : b.duration ≡ a.duration
  pub started_playing : b.playing ≡ true
  pub started_elapsed : b.elapsed ≡ host.zero_real
  pub started_showing : b.showing ≡ clip 512 (body_of host a.kinds e)
  pub started_fired : fired b.calls ≡ fired a.calls ++ body_of host a.kinds e ∷ []

module _ (host : Host) where
  restart_sound-Same : (a : Source) → Same a (restart_sound host a)
  unfolding restart_sound
  restart_sound-Same a =
      given_both (Same a) a.sound _ _ (same a) (λ s. asks-Same (restart s) a refl)

  pub stop_sound-Same : (a : Source) → Same a (stop_sound host a)
  unfolding stop_sound
  stop_sound-Same a = given_both (Same a) a.sound _ _ (same a) (λ s. asks-Same (stop s) a refl)

  pub start_alert-Started : (a : Source) (e : Event) → Started host a e (start_alert host a e)
  unfolding start_alert asks fired
  start_alert-Started a e =
      let body = body_of host a.kinds e in
      let a0 = tell_removed host e a in
      let a1 = draw_body host body a0 in
      let a2 = choose_art host e.kind a1 in
      let a3 = choose_sound host e.kind a2 in
      let s0 = (tell_removed-Quiet host e a).keeps in
      let s1 = draw_body-Quiet host body a0 in
      let chosen =
        Quiet-trans (choose_art-Quiet host e.kind a1) (choose_sound-Quiet host e.kind a2) in
      let ready = Quiet-trans (Quiet-trans s1 chosen) (ensure_sound_child-Quiet host a3) in
      let s3 = Same-trans ready.keeps (restart_sound-Same (ensure_sound_child host a3)) in
      record {
        started_kinds = s3.same_kinds ∙ s0.same_kinds;
        started_queue = s3.same_queue ∙ s0.same_queue;
        started_paused = s3.same_paused ∙ s0.same_paused;
        started_duration = s3.same_duration ∙ s0.same_duration;
        started_playing = refl;
        started_elapsed = refl;
        started_showing = s3.same_showing;
        started_fired = ap (λ t. t ++ body ∷ []) (s3.same_fired ∙ s0.same_fired);
      }

-- An alert is taken in if its kind is known and switched on, and fewer than 64 wait.
unfoldable pub taken_in : Source → Option Kind → Event → List Event
taken_in a none e = []
taken_in a (some k) e =
    if (a.kinds k).enabled && ltb (length (waiting a)) 64 then record e { kind = k } ∷ [] else []

unfoldable pub arrived : Source → Act → List Event
arrived a (event k e) = taken_in a (kind_of k) e
arrived a test_pressed = taken_in a (some a.test_kind) (test_event a.test_kind)
arrived a _ = []

-- What an operation keeps: the kinds, and the account of the alerts.
pub record Accounts (host : Host) (a : Source) (new : List Event) (b : Source) : Type 0 where
  pub accounts_kinds : b.kinds ≡ a.kinds
  pub accounts_valid : IsValid b.queue
  pub accounts_all :
      fired b.calls ++ map (body_of host a.kinds) (waiting b)
      ≡ fired a.calls ++ map (body_of host a.kinds) (waiting a ++ new)

module _ (host : Host) where
  pub Accounts-trans :
      {a b c : Source} {new : List Event}
      → Accounts host a new b
      → Accounts host b [] c
      → Accounts host a new c
  Accounts-trans {a} {b} {c} p q = record {
    accounts_kinds = q.accounts_kinds ∙ p.accounts_kinds;
    accounts_valid = q.accounts_valid;
    accounts_all =
        rw (← p.accounts_kinds) (
          q.accounts_all ∙ rw (append-nil (waiting b)) (rw (← p.accounts_kinds) at p.accounts_all));
  }

  pub of_Same : {a b : Source} → IsValid a.queue → Same a b → Accounts host a [] b
  of_Same {a} {b} v s = record {
    accounts_kinds = s.same_kinds;
    accounts_valid = rw s.same_queue v;
    accounts_all = rw (s.same_queue, s.same_fired, append-nil (waiting a)) refl;
  }

  of_Started :
      {a c : Source} (q : Queue) (e : Event)
      → waiting a ≡ e ∷ (view q).waiting
      → IsValid q
      → Started host (record a { queue = q }) e c
      → Accounts host a [] c
  of_Started {a} {c} q e w v st = record {
    accounts_kinds = st.started_kinds;
    accounts_valid = rw st.started_queue v;
    accounts_all =
        rw (st.started_queue, st.started_fired, w, append-nil (view q).waiting)
          (append_assoc (fired a.calls) _ _);
  }

  of_pop :
      (a : Source) (r : Bool × Option Event × Queue)
      → Popped a.queue r
      → IsValid a.queue
      → IsValid r.2
      → Accounts host a [] (
          given r.1 (record a { queue = r.2 }) (λ e. start_alert host (record a { queue = r.2 }) e))
  of_pop a _ (popped_none empty) v w = of_Same v (ground arith)
  of_pop a _ (popped_some {q'} e first) v w =
      of_Started q' e first w (start_alert-Started host (record a { queue = q' }) e)

  pub start_next-Accounts : (a : Source) → IsValid a.queue → Accounts host a [] (start_next host a)
  unfolding start_next
  start_next-Accounts a v =
      if_both (Accounts host a []) a.paused _ _ (of_Same v (same a))
        (of_pop a (pop a.queue) (pop-Popped a.queue v) v (pop-IsValid v))

  pub retimed :
      {a b : Source} (p : Bool) (r : Real)
      → Accounts host (record a { playing = p; elapsed = r }) [] b
      → Accounts host a [] b
  retimed p r h = record {
    accounts_kinds = h.accounts_kinds;
    accounts_valid = h.accounts_valid;
    accounts_all = h.accounts_all;
  }

  pub finish-Accounts : (a : Source) → IsValid a.queue → Accounts host a [] (finish host a)
  unfolding finish
  finish-Accounts a v = retimed false host.zero_real (of_Same v (stop_sound-Same host _))

  pub tick-Accounts :
      (a : Source) (dt : Real) → IsValid a.queue → Accounts host a [] (tick host a dt)
  unfolding tick
  tick-Accounts a dt v =
      let t = record a { elapsed = host.add_real a.elapsed dt } in
      let done = finish-Accounts t v in
      if_both (Accounts host a []) (not a.playing) _ _ (start_next-Accounts a v) (
        if_both (Accounts host a []) (host.lt_real t.elapsed a.duration) t
          (start_next host (finish host t)) (retimed a.playing t.elapsed (of_Same v (same t)))
          (retimed a.playing t.elapsed
            (Accounts-trans done (start_next-Accounts (finish host t) done.accounts_valid))))

  -- The alert that was pushed is the last to wait, if there was room.
  of_push :
      {a b : Source} (e : Event)
      → IsValid a.queue
      → Same (record a { queue = (push a.queue e).1 }) b
      → Accounts host a (if ltb (length (waiting a)) 64 then e ∷ [] else []) b
  of_push {a} {b} e v s = record {
    accounts_kinds = s.same_kinds;
    accounts_valid = rw s.same_queue (push-IsValid e v);
    accounts_all = rw (s.same_queue, s.same_fired, push_waiting a.queue e v) refl;
  }

  pub enqueue_known-Accounts :
      (a : Source) (k : Kind) (e : Event)
      → IsValid a.queue
      → Accounts host a (taken_in a (some k) e) (enqueue_known a (record e { kind = k }))
  unfolding enqueue_known taken_in
  enqueue_known-Accounts a k e v = elim (Bool-cases (a.kinds k).enabled) [
    | inl on ↦
        rw (on, enqueue_known, taken_in)
          (of_push (record e { kind = k }) v
            (tell_queued-Quiet (push a.queue (record e { kind = k })).0 (record e { kind = k })
              _).keeps)
    | inr out ↦
        rw (out, enqueue_known, taken_in)
          (of_Same v (asks-Same (log (switched_off (kind_id (pos (kind_value k))) e.name)) a refl))
  ]

  pub enqueue-Accounts :
      (a : Source) (k : ℤ) (e : Event)
      → IsValid a.queue
      → Accounts host a (taken_in a (kind_of k) e) (enqueue a k e)
  unfolding enqueue taken_in
  enqueue-Accounts a k e v = elim (Option-cases (kind_of k)) [
    | inl out ↦ rw (out, enqueue) (of_Same v (asks-Same (log (unknown_kind k)) a refl))
    | inr (kind, known) ↦ rw (known, enqueue) (enqueue_known-Accounts a kind e v)
  ]
