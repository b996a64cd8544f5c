-- ===== src/Twitch/Panel.antt =====
-- What the worker and the panel share under the lock of `struct ff_twitch` (src/ff-twitch.c): the
-- state, its line, the sign-in code, and the requests. Each definition is one section under the lock;
-- null pointers and the caller's buffers, filled by `snprintf`, are not modelled.
pub mod Requests
use obs_foxfire.Prelude.{
  ◌==◌, if◌then◌else◌, Bytes, bytes_eq, clip, ℕ, Bool, true, false, not, ◌||◌, [],
}

-- `enum ff_twitch_state`
pub data State : Type 0 where
  off signing_in connecting live retrying failed : State

abbrev pub state_value : State → ℕ
state_value off = 0
state_value signing_in = 1
state_value connecting = 2
state_value live = 3
state_value retrying = 4
state_value failed = 5

-- `struct ff_twitch`, less the thread, the lock, the module path and the callbacks.
pub record Panel : Type 0 where
  pub running : Bool
  pub enabled : Bool
  pub want_sign_in : Bool
  pub want_sign_out : Bool
  pub client_id : Bytes
  pub state : State
  pub line : Bytes
  pub code : Bytes
  pub verify_url : Bytes

-- `set_line`: whether the change is logged and passed on, and the panel.
unfoldable pub set_line : Panel → State → Bytes → Bool × Panel
set_line t s line =
    let changed = not (state_value t.state == state_value s) || not (bytes_eq t.line line) in
    let t' = record t { state = s; line = clip 512 line } in
    if state_value s == 1
    then (changed, t')
    else (changed, record t' { code = []; verify_url = [] })

-- `ff_twitch_status`: the state, the line, the code and the address shown.
unfoldable pub status : Panel → State × Bytes × Bytes × Bytes
status t = (t.state, t.line, t.code, t.verify_url)

-- The section of `do_sign_in` that stores the code.
unfoldable pub store_code : Panel → Bytes → Bytes → Panel
store_code t user_code verify_url = record t {
  code = clip 32 user_code;
  verify_url = clip 256 verify_url;
}

-- `ff_twitch_set_client_id` and `ff_twitch_set_enabled`
unfoldable pub set_client_id : Panel → Bytes → Panel
set_client_id t id = record t { client_id = clip 256 id }

unfoldable pub set_enabled : Panel → Bool → Panel
set_enabled t on = record t { enabled = on }

-- `ff_twitch_sign_in` and `ff_twitch_sign_out`
unfoldable pub sign_in : Panel → Panel
sign_in t = record t { want_sign_in = true }

unfoldable pub sign_out : Panel → Panel
sign_out t = record t { want_sign_out = true }

-- `taking`, of the one flag and of the other.
unfoldable pub taking_sign_in : Panel → Bool × Panel
taking_sign_in t = (t.want_sign_in, record t { want_sign_in = false })

unfoldable pub taking_sign_out : Panel → Bool × Panel
taking_sign_out t = (t.want_sign_out, record t { want_sign_out = false })

-- The section of `ff_twitch_destroy`.
unfoldable pub stop : Panel → Panel
stop t = record t { running = false }
