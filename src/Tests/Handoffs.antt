-- ===== src/Tests/Handoffs.antt =====
-- The handoff of frames, run in one order of its accesses.
use obs_foxfire.Handoff.{
  Handoff, init, read_begin, copy, read_ok, publish_begin, publish_word, publish_end, read_word,
}
use obs_foxfire.Handoff.Threads.{
  resting, copying, begins, writes, ends, looks, copies, Runs, starts, steps,
}
use obs_foxfire.Handoff.Untorn.{read_untorn}
use obs_foxfire.Prelude.{ℕ, ◌*◌, ◌/◌, ◌≤◌, ◌≡◌, refl, true, List, [], ◌∷◌, arith}

-- Frames of one word, the number of the call.
abbrev numbered : ℕ → List ℕ
numbered n = n ∷ []

abbrev h1 : Handoff
h1 = publish_begin (init 1) 0

abbrev h2 : Handoff
h2 = publish_word h1 0 0 1

abbrev h3 : Handoff
h3 = publish_end h2 0

seen : read_begin h3 ≡ copy 2
unfolding read_begin publish_begin publish_word publish_end init obs_foxfire.Handoff.write_slot
seen = refl

accepted : read_ok h3 2 ≡ true
unfolding read_ok publish_begin publish_word publish_end init obs_foxfire.Handoff.write_slot
accepted = refl

-- A frame is published, and then copied.
published_then_read : Runs 1 numbered (record {
  handoff = h3;
  writer = resting;
  reader = copying 2 2 (read_word h3 2 0 ∷ []);
  moves = 2;
})
unfolding init
published_then_read =
    steps (steps (steps (steps (steps starts begins) (writes (omega arith))) ends) (looks seen))
      (copies (omega arith))

read_untorn_example :
    ((read_word h3 2 0 ∷ []) ≡ numbered 1) × ((1 ≤ 2 / 2) × ◌≡◌ {A = ℕ} (2 / 2 * 2) 2)
read_untorn_example =
    read_untorn 1 numbered (λ n. refl) published_then_read refl accepted (omega arith)
