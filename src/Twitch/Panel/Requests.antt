-- ===== src/Twitch/Panel/Requests.antt =====
-- The panel and the worker take turns at the lock, in any order.
use obs_foxfire.Twitch.Panel.{
  state_value, set_line, status, store_code, set_client_id, set_enabled, sign_in, sign_out,
  taking_sign_in, taking_sign_out, stop, Panel, State, off, signing_in, connecting, live, retrying,
  failed,
}
use obs_foxfire.Prelude.{
  ◌==◌, if◌then◌else◌, ==_iff, Bool-cases, Bytes, bytes_eq_iff, clip, ℕ, suc, ◌+◌, ◌≤◌, ◌≡◌, refl,
  sym, ap, ◌∙◌, ◌↔◌, ◌⊎◌, inl, inr, Bool, true, false, not, ◌||◌, List, [], ◌∷◌, arith,
}

-- One section under the lock.
pub data Section : Type 0 where
  press_sign_in press_sign_out take_sign_in take_sign_out shut_down : Section
  enable : Bool → Section
  rename : Bytes → Section
  show : State → Bytes → Section
  offer : Bytes → Bytes → Section

-- The panel after a section, and whether the section took a request to sign in.
pub enter : Panel → Section → Bool × Panel
enter t press_sign_in = (false, sign_in t)
enter t press_sign_out = (false, sign_out t)
enter t take_sign_in = taking_sign_in t
enter t take_sign_out = (false, (taking_sign_out t).1)
enter t shut_down = (false, stop t)
enter t (enable on) = (false, set_enabled t on)
enter t (rename id) = (false, set_client_id t id)
enter t (show s line) = (false, (set_line t s line).1)
enter t (offer code url) = (false, store_code t code url)

-- How often a run presses the button, and how often it takes a request.
pub presses : List Section → ℕ
presses [] = 0
presses (press_sign_in ∷ rest) = suc (presses rest)
presses (_ ∷ rest) = presses rest

pub taken : Panel → List Section → ℕ × Panel
taken t [] = (0, t)
taken t (x ∷ rest) =
    let (took, t') = enter t x in
    let (n, last) = taken t' rest in ((if took then suc n else n), last)

keeps_request :
    (t : Panel) (s : State) (line : Bytes) → (set_line t s line).1.want_sign_in ≡ t.want_sign_in
unfolding set_line
keeps_request t s line = ground arith

-- Over any interleaving, the requests to sign in that are taken and the one that may be left are at
-- most those that were pressed and the one that stood at the start: none is taken twice.
pub sign_in_once :
    (t : Panel) (run : List Section)
    → (let (n, last) = taken t run in
        n + (if last.want_sign_in then 1 else 0) ≤ presses run + (if t.want_sign_in then 1 else 0))
unfolding taken presses enter sign_in sign_out taking_sign_in taking_sign_out stop set_enabled
    set_client_id store_code
sign_in_once t [] = omega arith
sign_in_once t (press_sign_in ∷ rest) = ground (arith, sign_in_once (sign_in t) rest)
sign_in_once t (take_sign_in ∷ rest) = ground (arith, sign_in_once (taking_sign_in t).1 rest)
sign_in_once t (press_sign_out ∷ rest) = sign_in_once (sign_out t) rest
sign_in_once t (take_sign_out ∷ rest) = sign_in_once (taking_sign_out t).1 rest
sign_in_once t (shut_down ∷ rest) = sign_in_once (stop t) rest
sign_in_once t (enable on ∷ rest) = sign_in_once (set_enabled t on) rest
sign_in_once t (rename id ∷ rest) = sign_in_once (set_client_id t id) rest
sign_in_once t (show s line ∷ rest) =
    ground (arith, sign_in_once (set_line t s line).1 rest, keeps_request t s line)
sign_in_once t (offer code url ∷ rest) = sign_in_once (store_code t code url) rest

state_of : ℕ → State
state_of n =
    if n == 0
    then off
    else if n == 1
    then signing_in
    else if n == 2
    then connecting
    else if n == 3
    then live
    else if n == 4
    then retrying
    else failed

state_of-state_value : (s : State) → state_of (state_value s) ≡ s
unfolding state_of
state_of-state_value off = refl
state_of-state_value signing_in = refl
state_of-state_value connecting = refl
state_of-state_value live = refl
state_of-state_value retrying = refl
state_of-state_value failed = refl

same_state : (a b : State) → ((state_value a == state_value b) ≡ true) ↔ (a ≡ b)
same_state a b = (
  λ h. sym (state_of-state_value a) ∙ ap state_of ((==_iff _ _).0 h) ∙ state_of-state_value b,
  λ h. (==_iff _ _).1 (ap state_value h),
)

both : (a b : Bool) → (not a || not b) ≡ false → (a ≡ true) × (b ≡ true)
both a b h = ground arith

unchanged :
    (a b : Bool) (A B : Type 0)
    → ((a ≡ true) ↔ A)
    → ((b ≡ true) ↔ B)
    → ((not a || not b) ≡ false) ↔ (A × B)
unchanged a b A B p q =
    (λ h. let (x, y) = both a b h in (p.0 x, q.0 y), λ (x, y). ground (arith, p.1 x, q.1 y))

-- What is shown after `set_line`: the state and the line that were set, and a code only while signing
-- in; and it is passed on exactly if the state or the line is another than before.
pub status-set_line :
    (t : Panel) (s : State) (line : Bytes)
    → (let (changed, t') = set_line t s line in
        let (state, shown, code, url) = status t' in
        (state ≡ s)
        × (shown ≡ clip 512 line)
        × ((s ≡ signing_in) ⊎ ((code ≡ []) × (url ≡ [])))
        × ((changed ≡ false) ↔ ((t.state ≡ s) × (t.line ≡ line))))
unfolding set_line status
status-set_line t s line =
    let same = same_state t.state s in
    let text = bytes_eq_iff t.line line in
    elim (Bool-cases (state_value s == 1)) [
      | inl one ↦
          rw (set_line, one)
            (refl, refl, inl ((same_state s signing_in).0 one), unchanged _ _ _ _ same text)
      | inr other ↦ rw (set_line, other) (refl, refl, inr (refl, refl), unchanged _ _ _ _ same text)
    ]
