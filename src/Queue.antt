-- ===== src/Queue.antt =====
-- src/ff-alert-queue.c and src/ff-alert-queue.h: the kinds of alert, and the fixed ring of alerts
-- that wait to be shown. A call that changes `*q` returns the new queue. A null pointer has no
-- counterpart here: the functions' guards against one are not modelled.
pub mod Kinds
pub mod Invariant
pub mod Fifo
use obs_foxfire.Prelude.{
  ℕ, ◌+◌, ◌-◌, ◌%◌, ◌^◌, Bool, true, false, List, [], ◌∷◌, get_or, set, leb, ◌==◌, if◌then◌else◌,
  Bytes, codes, bytes_eq, Option, none, some, get_elem?, replicate,
}
use obs_foxfire.Prelude.Int.{ℤ, pos, negsuc}

-- `enum ff_alert_kind`
pub data Kind : Type 0 where
  follow sub resub gift bits raid redeem : Kind

-- `struct ff_alert_event`. `name` and `message` are C strings of at most 191 and 319 bytes.
pub record Event : Type 0 where
  pub kind : Kind
  pub name : Bytes
  pub message : Bytes
  pub amount : ℤ
  pub tier : ℕ

-- `memset(out, 0, sizeof *out)`; FF_ALERT_FOLLOW is 0.
abbrev pub zero_event : Event
zero_event = record { kind = follow; name = []; message = []; amount = pos 0; tier = 0 }

-- `KIND_IDS`, in the order of the enumeration.
abbrev pub kind_ids : List (Kind × Bytes)
kind_ids =
    (follow, codes "follow")
    ∷ (sub, codes "sub")
    ∷ (resub, codes "resub")
    ∷ (gift, codes "gift")
    ∷ (bits, codes "bits")
    ∷ (raid, codes "raid")
    ∷ (redeem, codes "redeem")
    ∷ []

-- The number that C gives the constant.
unfoldable pub kind_value : Kind → ℕ
kind_value follow = 0
kind_value sub = 1
kind_value resub = 2
kind_value gift = 3
kind_value bits = 4
kind_value raid = 5
kind_value redeem = 6

-- An `enum` argument may hold any `int`; one out of range is "unknown".
unfoldable pub kind_id : ℤ → Bytes
kind_id (negsuc n) = codes "unknown"
kind_id (pos n) = elim (get_elem? kind_ids n) [ none ↦ codes "unknown" | some (k, id) ↦ id ]

kind_search : List (Kind × Bytes) → Bytes → Option Kind
kind_search [] id = none
kind_search ((k, name) ∷ rest) id = if bytes_eq name id then some k else kind_search rest id

unfoldable pub kind_parse : Bytes → Option Kind
unfolding kind_search
kind_parse id = kind_search kind_ids id

abbrev pub queue_max : ℕ
queue_max = 64

-- `struct ff_alert_queue`
pub record Queue : Type 0 where
  pub items : List Event
  pub head : ℕ
  pub count : ℕ
  pub dropped : ℕ

unfoldable pub init : Queue
init = record { items = replicate queue_max zero_event; head = 0; count = 0; dropped = 0 }

-- `head + count` is a `size_t` sum, and `dropped` a `uint64_t`.
unfoldable pub push : Queue → Event → Bool × Queue
push q e =
    if leb queue_max q.count then (false, record q { dropped = (q.dropped + 1) % 2 ^ 64 }) else (
      true,
      record q {
        items = set q.items ((q.head + q.count) % 2 ^ 64 % queue_max) e;
        count = (q.count + 1) % 2 ^ 64;
      },
    )

-- What goes through `out` is `none` where nothing is written.
unfoldable pub pop : Queue → Bool × Option Event × Queue
pop q = if q.count == 0 then (false, none, q) else (
  true,
  some (get_or q.items q.head zero_event),
  record q { head = (q.head + 1) % 2 ^ 64 % queue_max; count = q.count - 1 },
)

-- The number of alerts thrown away, and the queue left.
unfoldable pub clear : Queue → ℕ × Queue
clear q = (q.count, record q { head = 0; count = 0 })
