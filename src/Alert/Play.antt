-- ===== src/Alert/Play.antt =====
-- The playing of alerts in src/ff-alert-source.c: how an alert is queued, started, timed, skipped and
-- cleared. Each definition that touches the queue is one section under `qlock`.
use obs_foxfire.Queue.{
  Event, Kind, follow, sub, resub, gift, bits, raid, redeem, kind_value, kind_id, push, pop, clear,
}
use obs_foxfire.Sanitise.{sanitise}
use obs_foxfire.Prelude.Text.{decimal_ℤ, decimal}
use obs_foxfire.Alert.{
  Real, KindSettings, Host, Source, restart, stop, update_text, update_properties, log, removed,
  firing, unknown_kind, switched_off, queue_full, queued, cleared, asks, ensure_text_child,
  ensure_sound_child, text_settings,
}
use obs_foxfire.Prelude.{
  ltb, ◌==◌, if◌then◌else◌, get_elem?, Bytes, codes, is_empty, bytes_eq, clip, ℕ, ◌+◌, ◌%◌, ◌^◌,
  Bool, true, false, not, Option, none, some, [], ◌∷◌, ◌++◌, given,
}
use obs_foxfire.Prelude.Int.{ℤ, pos, negsuc}

-- The text left by `ff_alert_sanitise` in an array of `cap` bytes.
unfoldable pub cleaned : ℕ → Bytes → Bytes
cleaned cap s = given (sanitise (some s) cap).0 [] (λ t. t)

-- `own[0] ? own : shared`
unfoldable pub own_or : Bytes → Bytes → Bytes
own_or own shared = if is_empty own then shared else own

module _ (host : Host) where
  open host use {replace, add_real, lt_real, zero_real}

  -- `render_template`, with the 512 bytes of `out`.
  unfoldable pub render_template : (Kind → KindSettings) → Event → Bytes → Bytes → Bytes
  render_template kinds e safe_name safe_msg =
      let t0 = own_or (kinds e.kind).template (codes "{name}!") in
      let t1 = replace t0 (codes "{name}") safe_name in
      let t2 = replace t1 (codes "{message}") safe_msg in
      let t3 = replace t2 (codes "{amount}") (clip 32 (decimal_ℤ e.amount)) in
      let t4 =
        replace t3 (codes "{tier}") (if ltb 0 e.tier then clip 16 (decimal e.tier) else []) in
      clip 512 (replace t4 (codes "{kind}") (kind_id (pos (kind_value e.kind))))

  -- The text that is drawn for an event.
  unfoldable pub body_of : (Kind → KindSettings) → Event → Bytes
  body_of kinds e = render_template kinds e (cleaned 192 e.name) (cleaned 320 e.message)

  -- The parts of `start_alert`, in its order.
  unfoldable pub tell_removed : Event → Source → Source
  tell_removed e a =
      let n = ((sanitise (some e.name) 192).1 + (sanitise (some e.message) 320).1) % 2 ^ 64 in
      if n == 0 then a else asks (log (removed n)) a

  unfoldable pub draw_body : Bytes → Source → Source
  draw_body body a =
      let b = ensure_text_child host (record a { showing = clip 512 body }) in
      given b.text b (λ t. asks (update_text t (text_settings b.style (clip 512 body))) b)

  unfoldable pub choose_art : Kind → Source → Source
  choose_art k a =
      let preset = own_or (a.kinds k).preset a.preset_fallback in
      if bytes_eq preset a.want_preset
      then a
      else record a { want_preset = clip 64 preset; art_dirty = true }

  unfoldable pub choose_sound : Kind → Source → Source
  choose_sound k a =
      let snd = own_or (a.kinds k).sound a.sound_fallback in
      if bytes_eq snd a.sound_path
      then a
      else ensure_sound_child host (record a { sound_path = clip 512 snd })

  unfoldable pub restart_sound : Source → Source
  restart_sound a = given a.sound a (λ s. asks (restart s) a)

  -- `start_alert`
  unfoldable pub start_alert : Source → Event → Source
  start_alert a e =
      let body = body_of a.kinds e in
      let a1 = draw_body body (tell_removed e a) in
      let a2 = choose_sound e.kind (choose_art e.kind a1) in
      let a3 = restart_sound (ensure_sound_child host a2) in
      asks (log (firing body)) (record a3 { elapsed = zero_real; playing = true })

  -- The end of `alert_tick`: the next alert, unless the source is paused.
  unfoldable pub start_next : Source → Source
  start_next a =
      if a.paused
      then a
      else (let (have, next, q) = pop a.queue in
          let b = record a { queue = q } in given next b (λ e. start_alert b e))

  unfoldable pub stop_sound : Source → Source
  stop_sound a = given a.sound a (λ s. asks (stop s) a)

  unfoldable pub finish : Source → Source
  finish a = stop_sound (record a { playing = false; elapsed = zero_real })

  -- `alert_tick`
  unfoldable pub tick : Source → Real → Source
  tick a dt =
      let t = record a { elapsed = add_real a.elapsed dt } in
      if not a.playing
      then start_next a
      else if lt_real t.elapsed a.duration
      then t
      else start_next (finish t)

-- `on_twitch_changed`
unfoldable pub on_twitch_changed : Source → Source
on_twitch_changed a = asks update_properties a

-- The value of the `int` that an event carries as its kind, if it is one of the enumeration.
unfoldable pub kind_of : ℤ → Option Kind
kind_of (negsuc n) = none
kind_of (pos n) = get_elem? (follow ∷ sub ∷ resub ∷ gift ∷ bits ∷ raid ∷ redeem ∷ []) n

-- What `ff_alert_enqueue` logs about a push that succeeded or not.
unfoldable pub tell_queued : Bool → Event → Source → Source
tell_queued false e b = asks (log (queue_full e.name b.queue.dropped)) b
tell_queued true e b = if ltb 1 b.queue.count then asks (log (queued e.name b.queue.count)) b else b

-- `ff_alert_enqueue`, past the test of the kind. `e` has the kind that is tested.
unfoldable pub enqueue_known : Source → Event → Source
enqueue_known a e =
    if not (a.kinds e.kind).enabled
    then asks (log (switched_off (kind_id (pos (kind_value e.kind))) e.name)) a
    else (let (ok, q) = push a.queue e in tell_queued ok e (record a { queue = q }))

-- `ff_alert_enqueue`, of an event whose kind holds `k`.
unfoldable pub enqueue : Source → ℤ → Event → Source
enqueue a k e =
    given (kind_of k) (asks (log (unknown_kind k)) a)
      (λ kind. enqueue_known a (record e { kind = kind }))

-- The event of `on_test_fire`, whose name has an override and a line feed in it.
unfoldable pub test_event : Kind → Event
test_event k = record {
  kind = k;
  name = codes "Test" ++ (0xe2 ∷ 0x80 ∷ 0xae ∷ (codes "Viewer" ++ (0x0a ∷ codes "42")));
  message = codes "a message from the test button";
  amount = pos 42;
  tier = 1;
}

-- `on_test_fire`, `on_skip` and `on_clear`
unfoldable pub on_test_fire : Source → Source
on_test_fire a = enqueue a (pos (kind_value a.test_kind)) (test_event a.test_kind)

unfoldable pub on_skip : Source → Source
on_skip a = record a { elapsed = a.duration }

unfoldable pub on_clear : Source → Source
on_clear a = let (n, q) = clear a.queue in asks (log (cleared n)) (record a { queue = q })
