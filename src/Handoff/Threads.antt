-- ===== src/Handoff/Threads.antt =====
-- The two threads at once: every order of their accesses is a run of steps.
use obs_foxfire.Handoff.{
  Handoff, init, publish_begin, publish_word, publish_end, copy, read_begin, read_word,
}
use obs_foxfire.Prelude.{length, get_or, ℕ, ◌+◌, ◌/◌, ◌<◌, ◌≡◌, List, [], ◌∷◌, ◌++◌}

-- Where the writer is: between two calls, or having loaded `s` and written `k` words of a frame.
pub data Writer : Type 0 where
  resting : Writer
  writing : (s k : ℕ) → Writer

-- Where the reader is: between two turns, or copying since the counter had been moved `since` times, having loaded
-- `s` and copied `out`.
pub data Reader : Type 0 where
  waiting : Reader
  copying : (since s : ℕ) (out : List ℕ) → Reader

-- A state of both, `moves` being how often the counter has been moved.
pub record State : Type 0 where
  pub handoff : Handoff
  pub writer : Writer
  pub reader : Reader
  pub moves : ℕ

-- The `n`-th call publishes the frame `frames n`, of `size` words.
module _ (size : ℕ) (frames : ℕ → List ℕ) where
  pub data Step : State → State → Type 0 where
    begins :
        {h : Handoff} {r : Reader} {t : ℕ}
        → Step
            (record { handoff = h; writer = resting; reader = r; moves = t })
            (record {
              handoff = publish_begin h h.seq;
              writer = writing h.seq 0;
              reader = r;
              moves = t + 1;
            })
    writes :
        {h : Handoff} {r : Reader} {t s k : ℕ}
        → k < size
        → Step
            (record { handoff = h; writer = writing s k; reader = r; moves = t })
            (record {
              handoff = publish_word h s k (get_or (frames (t / 2 + 1)) k 0);
              writer = writing s (k + 1);
              reader = r;
              moves = t;
            })
    ends :
        {h : Handoff} {r : Reader} {t s : ℕ}
        → Step
            (record { handoff = h; writer = writing s size; reader = r; moves = t })
            (record { handoff = publish_end h s; writer = resting; reader = r; moves = t + 1 })
    looks :
        {h : Handoff} {w : Writer} {t s : ℕ}
        → read_begin h ≡ copy s
        → Step
            (record { handoff = h; writer = w; reader = waiting; moves = t })
            (record { handoff = h; writer = w; reader = copying t s []; moves = t })
    copies :
        {h : Handoff} {w : Writer} {t since s : ℕ} {out : List ℕ}
        → length out < size
        → Step
            (record { handoff = h; writer = w; reader = copying since s out; moves = t })
            (record {
              handoff = h;
              writer = w;
              reader = copying since s (out ++ (read_word h s (length out) ∷ []));
              moves = t;
            })
    turns :
        {h : Handoff} {w : Writer} {t : ℕ} {r : Reader}
        → Step
            (record { handoff = h; writer = w; reader = r; moves = t })
            (record { handoff = h; writer = w; reader = waiting; moves = t })

  -- The runs from the start.
  abbrev pub start : State
  start = record { handoff = init size; writer = resting; reader = waiting; moves = 0 }

  pub data Runs : State → Type 0 where
    starts : Runs start
    steps : {st st' : State} → Runs st → Step st st' → Runs st'
