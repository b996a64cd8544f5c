-- ===== src/Pack.antt =====
-- The names and paths of a pack, from src/ff-pack.c: what an id may be, what a path inside the pack
-- may be, and the last part of a path. A null pointer is the empty string, which both refuse.
pub mod Paths
pub mod Shared
pub mod Archive
pub mod Load
pub mod Remove
pub mod Install
use obs_foxfire.Prelude.{
  begins, ltb, leb, ◌==◌, if◌then◌else◌, length, get_or, take, Bytes, codes, is_empty, ℕ, zero, suc,
  Bool, true, false, not, ◌&&◌, ◌||◌, Option, none, some, [], ◌∷◌, ◌++◌,
}

abbrev pub is_id_char : ℕ → Bool
is_id_char c = leb b'a' c && leb c b'z' || (leb b'0' c && leb c b'9' || c == b'-')

abbrev pub all_id : Bytes → Bool
all_id [] = true
all_id (c ∷ s) = is_id_char c && all_id s

-- `id_ok`
unfoldable pub id_ok : Bytes → Bool
id_ok s = not (is_empty s || ltb 63 (length s)) && all_id s

-- `strstr(p, "..")`
abbrev pub has_dots : Bytes → Bool
has_dots [] = false
has_dots (c ∷ []) = false
has_dots (c ∷ d ∷ s) = c == b'.' && d == b'.' || has_dots (d ∷ s)

-- `strchr(p, c)`
abbrev pub has : ℕ → Bytes → Bool
has c [] = false
has c (x ∷ s) = x == c || has c s

abbrev pub is_rooted : Bytes → Bool
is_rooted [] = false
is_rooted (c ∷ s) = c == b'/'

-- `ff_rel_ok`
unfoldable pub rel_ok : Bytes → Bool
rel_ok p =
    not (is_empty p)
    && (not (is_rooted p) && (not (has_dots p) && (not (has b'\\' p) && not (has b':' p))))

-- `path_basename`: `s` is the last part found so far.
unfoldable pub basename_from : Bytes → Bytes → Bytes
basename_from s [] = s
basename_from s (c ∷ p) = basename_from (if c == b'/' || c == b'\\' then p else s) p

unfoldable pub path_basename : Bytes → Bytes
unfolding basename_from
path_basename p = basename_from p p

-- ANCHOR
abbrev pub anchor : Bytes
anchor = codes "plugin_config"

-- `at`, the last place where the anchor stands: what is before it, and the path from it on.
unfoldable pub last_anchor : Bytes → Option (Bytes × Bytes)
last_anchor [] = none
last_anchor (c ∷ s) = elim (last_anchor s) [
  | some (before, at) ↦ some (c ∷ before, at)
  | none ↦ if begins anchor (c ∷ s) then some ([], c ∷ s) else none
]

abbrev pub is_slash : ℕ → Bool
is_slash c = c == b'/' || c == b'\\'

-- `at == module_path`, or the byte before it is a slash.
abbrev pub ends_in_slash : Bytes → Bool
ends_in_slash [] = true
ends_in_slash (c ∷ []) = is_slash c
ends_in_slash (c ∷ d ∷ s) = ends_in_slash (d ∷ s)

-- `ff_shared_config_path`: the result, and what `out` holds if it is written.
unfoldable pub shared_config_path : Bytes → Bytes → ℕ → Bool × Option Bytes
unfolding last_anchor
shared_config_path module_path leaf zero = (false, none)
shared_config_path module_path leaf (suc cap) = elim (last_anchor module_path) [
  | none ↦ (false, none)
  | some (before, at) ↦
      if not (is_slash (get_or at 13 0)) || not (ends_in_slash before)
      then (false, none)
      else (let path = before ++ (anchor ++ (codes "/foxfire/" ++ leaf)) in
          (leb (length path) cap, some (take cap path)))
]
