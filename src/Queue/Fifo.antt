-- ===== src/Queue/Fifo.antt =====
-- The ring against the abstract queue that ff-alert-queue.h promises: alerts come out in the order
-- in which they were accepted, a full queue refuses the newest, and each refusal is counted.
pub mod Ends
use obs_foxfire.Queue.Invariant.{IsValid, push-IsValid, pop-IsValid, clear-IsValid}
use obs_foxfire.Prelude.{
  leb, if◌then◌else◌, length, get_or, set, get_or-set_self, get_or-set_ne, ℕ, zero, suc, ◌+◌, ◌-◌,
  ◌%◌, ◌^◌, ◌<◌, ◌≡◌, refl, ap, ◌∙◌, ◌≢◌, none, some, List, [], ◌∷◌, ◌++◌, arith,
}
use obs_foxfire.Queue.{zero_event, queue_max, push, pop, clear, Event, Queue}

-- The abstract queue: the waiting alerts, oldest first, and the number refused.
pub record Fifo : Type 0 where
  pub waiting : List Event
  pub refused : ℕ

pub data Call : Type 0 where
  put : Event → Call
  get clear_all : Call

pub data Reply : Type 0 where
  accepted refused_newest nothing_waiting : Reply
  got : Event → Reply
  discarded : ℕ → Reply

-- One call on the abstract queue.
pub fifo_step : Fifo → Call → Reply × Fifo
fifo_step s (put e) =
    if leb 64 (length s.waiting)
    then (refused_newest, record s { refused = (s.refused + 1) % 2 ^ 64 })
    else (accepted, record s { waiting = s.waiting ++ e ∷ [] })
fifo_step s get = elim s.waiting [
  | [] ↦ (nothing_waiting, s)
  | e ∷ rest ↦ (got e, record s { waiting = rest })
]
fifo_step s clear_all = (discarded (length s.waiting), record s { waiting = [] })

-- The same call on the ring.
pub ring_step : Queue → Call → Reply × Queue
ring_step q (put e) = let (ok, q') = push q e in (if ok then accepted else refused_newest, q')
ring_step q get =
    let (ok, out, q') = pop q in (elim out [ none ↦ nothing_waiting | some e ↦ got e ], q')
ring_step q clear_all = let (n, q') = clear q in (discarded n, q')

pub fifo_run : Fifo → List Call → List Reply × Fifo
fifo_run s [] = ([], s)
fifo_run s (c ∷ cs) =
    let (r, s') = fifo_step s c in let (rs, last) = fifo_run s' cs in (r ∷ rs, last)

pub ring_run : Queue → List Call → List Reply × Queue
ring_run q [] = ([], q)
ring_run q (c ∷ cs) =
    let (r, q') = ring_step q c in let (rs, last) = ring_run q' cs in (r ∷ rs, last)

-- The alerts in the `n` slots from `h` on, where `h` may run past the end of the array.
abbrev slots : List Event → ℕ → ℕ → List Event
slots items h zero = []
slots items h (suc n) = get_or items (h % 64) zero_event ∷ slots items (suc h) n

abbrev pub view : Queue → Fifo
view q = record { waiting = slots q.items q.head q.count; refused = q.dropped }

length-slots : (items : List Event) (h n : ℕ) → length (slots items h n) ≡ n
length-slots items h zero = refl
length-slots items h (suc n) = ap suc (length-slots items (suc h) n)

slots_mod : (items : List Event) (h g n : ℕ) → h % 64 ≡ g % 64 → slots items h n ≡ slots items g n
slots_mod items h g zero e = refl
slots_mod items h g (suc n) e = rw e (
    ap (λ t. get_or items (g % 64) zero_event ∷ t)
      (slots_mod items (suc h) (suc g) n (omega arith)))

-- A write to a slot past the window leaves the window as it is.
slots-set :
    (items : List Event) (e : Event) (h n i : ℕ)
    → ((k : ℕ) → k < n → i ≢ (h + k) % 64)
    → slots (set items i e) h n ≡ slots items h n
slots-set items e h zero i off = refl
slots-set items e h (suc n) i off = rw (get_or-set_ne items e zero_event here) (
    ap (λ t. get_or items (h % 64) zero_event ∷ t)
      (slots-set items e (suc h) n i
        (λ k lt same. off (suc k) (omega arith) (same ∙ ap (λ t. t % 64) (omega arith)))))
  where
    here : i ≢ h % 64
    here same = off 0 (omega arith) (same ∙ ap (λ t. t % 64) (omega arith))

slots-concat :
    (items : List Event) (h n : ℕ)
    → slots items h (suc n) ≡ slots items h n ++ get_or items ((h + n) % 64) zero_event ∷ []
slots-concat items h zero = ap (λ i. get_or items i zero_event ∷ []) (omega arith)
slots-concat items h (suc n) =
    ap (λ t. get_or items (h % 64) zero_event ∷ t)
      (slots-concat items (suc h) n
        ∙ ap (λ i. slots items (suc h) n ++ get_or items i zero_event ∷ []) (omega arith))

slots-push :
    (q : Queue) (e : Event)
    → IsValid q
    → q.count < 64
    → slots (set q.items ((q.head + q.count) % 64) e) q.head (suc q.count)
      ≡ slots q.items q.head q.count ++ e ∷ []
slots-push q e v room =
    slots-concat _ q.head q.count
    ∙ rw (
      slots-set q.items e q.head q.count ((q.head + q.count) % 64)
          (λ k lt same. omega (arith, v.head_in)),
      get_or-set_self q.items ((q.head + q.count) % 64) e zero_event (omega (arith, v.storage)),
    )

-- `slots` matches on the count, which the code tests against 0.
slots_of_pos :
    (items : List Event) (h n : ℕ)
    → n ≢ 0
    → slots items h n ≡ get_or items (h % 64) zero_event ∷ slots items (suc h) (n - 1)
slots_of_pos items h zero p = absurd (p refl)
slots_of_pos items h (suc n) p =
    ap (λ k. get_or items (h % 64) zero_event ∷ slots items (suc h) k) (omega arith)

mod_small : (h : ℕ) → h < 64 → h % 64 ≡ h
mod_small h lt = omega arith

pub push_refines :
    (q : Queue) (e : Event)
    → IsValid q
    → let (r, q') = ring_step q (put e) in (r, view q') ≡ fifo_step (view q) (put e)
unfolding ring_step fifo_step push
push_refines q e v =
    ground (arith, length-slots q.items q.head q.count, slots-push q e v, sum q e v, v.count_in)
  where
    sum :
        (q : Queue) (e : Event) (v : IsValid q)
        → ((q.head + q.count) % 2 ^ 64 ≡ q.head + q.count) × ((q.count + 1) % 2 ^ 64 ≡ suc q.count)
    sum q e v = omega (arith, v.count_in, v.head_in)

pub pop_refines :
    (q : Queue) → IsValid q → let (r, q') = ring_step q get in (r, view q') ≡ fifo_step (view q) get
unfolding ring_step fifo_step pop
pop_refines q v = ground (
  arith,
  v.head_in,
  slots_of_pos q.items q.head q.count,
  slots_mod q.items ((q.head + 1) % 2 ^ 64 % queue_max) (suc q.head) (q.count - 1),
  mod_small q.head v.head_in,
)

clear_refines :
    (q : Queue) → let (r, q') = ring_step q clear_all in (r, view q') ≡ fifo_step (view q) clear_all
unfolding ring_step fifo_step clear
clear_refines q = ground (arith, length-slots q.items q.head q.count)

-- One call on a valid ring answers as the abstract queue does, and leaves the ring valid with the
-- abstract queue's contents.
step_refines :
    (q : Queue) (c : Call)
    → IsValid q
    → (let (r, q') = ring_step q c in (r, view q') ≡ fifo_step (view q) c)
step_refines q (put e) v = push_refines q e v
step_refines q get v = pop_refines q v
step_refines q clear_all v = clear_refines q

step-IsValid : (q : Queue) (c : Call) → IsValid q → IsValid (ring_step q c).1
unfolding ring_step
step-IsValid q (put e) v = push-IsValid e v
step-IsValid q get v = pop-IsValid v
step-IsValid q clear_all v = clear-IsValid v

-- From a valid ring, every sequence of pushes, pops and clears gets the replies of the abstract
-- queue with the same contents, and ends in a valid ring that holds the abstract queue's contents
-- and count of refusals.
pub run_refines :
    (cs : List Call) (q : Queue)
    → IsValid q
    → (let (rs, last) = ring_run q cs in (rs, view last) ≡ fifo_run (view q) cs)
      × IsValid (ring_run q cs).1
unfolding ring_run fifo_run
run_refines [] q v = (refl, v)
run_refines (c ∷ cs) q v =
    let (same, valid) = run_refines cs (ring_step q c).1 (step-IsValid q c v) in
    (rw (← step_refines q c v, ← same), valid)
