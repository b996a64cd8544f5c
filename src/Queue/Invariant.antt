-- ===== src/Queue/Invariant.antt =====
-- The representation invariant of the ring of src/ff-alert-queue.c.
use obs_foxfire.Prelude.{length, length-set, length-replicate, ◌+◌, ◌%◌, ◌^◌, ◌≤◌, ◌<◌, ◌≡◌, arith}
use obs_foxfire.Queue.{zero_event, queue_max, init, push, pop, clear, Event, Queue}

pub record IsValid (q : Queue) : Type 0 where
  pub storage : length q.items ≡ 64
  pub head_in : q.head < 64
  pub count_in : q.count ≤ 64

pub init-IsValid : IsValid init
unfolding init
init-IsValid = record {
  storage = length-replicate 64 zero_event;
  head_in = omega arith;
  count_in = omega arith;
}

pub push-IsValid : {q : Queue} (e : Event) → IsValid q → IsValid (push q e).1
unfolding push
push-IsValid {q} e v =
    ground (arith, length-set q.items ((q.head + q.count) % 2 ^ 64 % queue_max) e)

pub pop-IsValid : {q : Queue} → IsValid q → IsValid (pop q).2
unfolding pop
pop-IsValid v = ground arith

pub clear-IsValid : {q : Queue} → IsValid q → IsValid (clear q).1
unfolding clear
clear-IsValid v = ground arith
