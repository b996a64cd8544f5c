-- ===== src/Pack/Archive.antt =====
-- The checks of an archive before it is unpacked, in src/ff-pack.c: the names of its entries, as the
-- listing tool prints them one a line, and the kinds in the first column of the longer listing.
pub mod Inside
use obs_foxfire.Pack.{all_id}
use obs_foxfire.Prelude.{
  ltb, ◌==◌, if◌then◌else◌, length, get_or, take, Bytes, is_empty, bytes_eq, ℕ, ◌+◌, ◌-◌, Bool,
  true, false, not, ◌&&◌, ◌||◌, Option, none, some, List, [], ◌∷◌,
}

-- The lines of a listing, which `memchr` finds.
abbrev push : ℕ → List Bytes → List Bytes
push c [] = (c ∷ []) ∷ []
push c (l ∷ ls) = (c ∷ l) ∷ ls

unfoldable pub lines : Bytes → List Bytes
lines [] = []
lines (c ∷ s) = if c == b'\n' then [] ∷ lines s else push c (lines s)

-- `while (ll && p[ll - 1] == '\r') ll--`
unfoldable pub without_returns : Bytes → Bytes
without_returns [] = []
without_returns (c ∷ s) =
    let rest = without_returns s in if is_empty rest && c == b'\r' then [] else c ∷ rest

-- What stands before the first slash, if there is one.
unfoldable pub before_slash : Bytes → Option Bytes
before_slash [] = none
before_slash (c ∷ s) = elim (c == b'/') [
  | true ↦ some []
  | false ↦ elim (before_slash s) [ none ↦ none | some t ↦ some (c ∷ t) ]
]

-- `first_entry_top`
unfoldable pub first_entry_top : Bytes → Option Bytes
unfolding before_slash
first_entry_top line = elim (before_slash line) [
  | none ↦ none
  | some t ↦ if is_empty t || not (all_id t) then none else some t
]

-- The loop that looks for `..` between slashes; the flag is `i == 0 || p[i - 1] == '/'`.
abbrev pub ends_part : Bytes → Bool
ends_part [] = true
ends_part (c ∷ s) = c == b'/'

unfoldable pub goes_up : Bool → Bytes → Bool
goes_up at_start [] = false
goes_up at_start (c ∷ []) = false
goes_up at_start (c ∷ d ∷ s) =
    at_start && (c == b'.' && (d == b'.' && ends_part s)) || goes_up (c == b'/') (d ∷ s)

-- `bad`
unfoldable pub is_bad : Bytes → Bytes → Bool
unfolding goes_up
is_bad top line =
    ltb (length line) (length top + 1)
    || (not (get_or line (length top) 0 == b'/')
        || (not (bytes_eq (take (length top) line) top) || goes_up true line))

-- What `check_zip_entries` finds: false with one text or the other, or the top folder.
pub data Contents : Type 0 where
  wrong_layout empty_zip : Contents
  one_top : Bytes → Contents

-- `topdir`, once there is an entry.
abbrev pub top_for : Option Bytes → Bytes → Option Bytes
top_for none line = first_entry_top line
top_for (some t) line = some t

-- The loop over the lines.
unfoldable pub check_lines : Option Bytes → List Bytes → Contents
unfolding first_entry_top is_bad without_returns
check_lines none [] = empty_zip
check_lines (some t) [] = one_top t
check_lines top (l ∷ ls) =
    let line = without_returns l in
    elim (is_empty line) [
      | true ↦ check_lines top ls
      | false ↦ elim (top_for top line) [
        | none ↦ wrong_layout
        | some t ↦ elim (is_bad t line) [ true ↦ wrong_layout | false ↦ check_lines (some t) ls ]
      ]
    ]

-- `check_zip_entries`
unfoldable pub check_zip_entries : Bytes → Contents
unfolding lines check_lines
check_zip_entries listing = check_lines none (lines listing)

-- `listing_has_symlink`
abbrev is_link : List Bytes → Bool
is_link [] = false
is_link ([] ∷ ls) = is_link ls
is_link ((c ∷ l) ∷ ls) = c == b'l' || is_link ls

unfoldable pub listing_has_symlink : Bytes → Bool
unfolding lines
listing_has_symlink listing = is_link (lines listing)
