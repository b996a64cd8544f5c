-- ===== src/Ws/Handshake.antt =====
-- The opening handshake, lines 47-224 of src/ff-ws-conn.c. A response is the list of its `len` bytes,
-- and a pointer into it the rest from there on; `atoi` reads a zero byte behind the last one, and a
-- number that does not fit an `int`, which C leaves undefined, wraps. The pointers are not null.
pub mod Fields
pub mod Search
pub mod Soundness
use obs_foxfire.Ws.Digest.{accept_for}
use obs_foxfire.Prelude.Text.{decimal, decimal_ℤ}
use obs_foxfire.Prelude.{
  ltb, leb, ◌==◌, if◌then◌else◌, length, get_or, take, drop, Bytes, codes, is_empty, bytes_eq, ℕ,
  zero, suc, ◌+◌, ◌-◌, ◌*◌, Bool, true, false, not, ◌&&◌, ◌||◌, Option, none, some, [], ◌∷◌, ◌++◌,
  map,
}
use obs_foxfire.Prelude.Int.{ℤ, pos, ◌-ℤ◌, eqb_ℤ, to_int32}

-- `ff_ws_handshake_request`; `none` is the return of 0.
unfoldable pub handshake_request : Bytes → Bytes → Bytes → ℕ → Option Bytes
handshake_request host path key cap =
    let s =
      codes "GET "
      ++ (path
          ++ (codes " HTTP/1.1\r\nHost: "
              ++ (host
                  ++ (codes "\r\nUpgrade: websocket\r\nConnection: Upgrade\r\nSec-WebSocket-Key: "
                      ++ (key ++ codes "\r\nSec-WebSocket-Version: 13\r\n\r\n"))))) in
    if leb cap (length s) then none else some s

abbrev pub lower : ℕ → ℕ
lower c = if leb b'A' c && leb c b'Z' then c - b'A' + b'a' else c

-- A line without its newline, and what follows the newline.
abbrev pub line : Bytes → Bytes × Bytes
line [] = ([], [])
line (c ∷ s) = elim (c == b'\n') [
  | true ↦ ([], s)
  | false ↦ let (l, rest) = line s in (c ∷ l, rest)
]

-- `if (end > start && resp[end - 1] == '\r') end--`
abbrev pub without_return : Bytes → Bytes
without_return [] = []
without_return (c ∷ []) = if c == b'\r' then [] else c ∷ []
without_return (c ∷ d ∷ s) = c ∷ without_return (d ∷ s)

abbrev pub skip_blanks : Bytes → Bytes
skip_blanks [] = []
skip_blanks (c ∷ s) = elim (c == b' ' || c == b'\t') [ true ↦ skip_blanks s | false ↦ c ∷ s ]

-- `value_is`
unfoldable pub value_is : Bytes → Bytes → Bool
value_is v want = length v == length want && bytes_eq (map lower v) (map lower want)

-- The line is one of the header that is asked for.
abbrev pub is_named : Bytes → Bytes → Bool
is_named name l =
    ltb (length name) (length l)
    && (get_or l (length name) 0 == b':'
        && bytes_eq (map lower (take (length name) l)) (map lower name))

-- The loop of `header_value` over the lines, with fuel: every turn reads a byte or more.
unfoldable pub header_in : ℕ → Bytes → Bytes → Option Bytes
header_in zero name s = none
header_in (suc f) name [] = none
header_in (suc f) name (c ∷ s) =
    let (l, rest) = line (c ∷ s) in
    let l' = without_return l in
    let later = header_in f name rest in
    if length l' == 0
    then none
    else if is_named name l'
    then some (skip_blanks (drop (length name + 1) l'))
    else later

-- `header_value`
unfoldable pub header_value : Bytes → Bytes → Option Bytes
unfolding header_in
header_value resp name = let (status, rest) = line resp in header_in (length rest) name rest

abbrev pub skip_separators : Bytes → Bytes
skip_separators [] = []
skip_separators (c ∷ s) = elim (c == b' ' || (c == b'\t' || c == b',')) [
  | true ↦ skip_separators s
  | false ↦ c ∷ s
]

-- What stands before the next comma, and from it on.
abbrev pub token : Bytes → Bytes × Bytes
token [] = ([], [])
token (c ∷ s) = elim (c == b',') [
  | true ↦ ([], c ∷ s)
  | false ↦ let (t, rest) = token s in (c ∷ t, rest)
]

abbrev pub trim_end : Bytes → Bytes
trim_end [] = []
trim_end (c ∷ s) =
    let rest = trim_end s in if is_empty rest && (c == b' ' || c == b'\t') then [] else c ∷ rest

-- The loop of `value_has`, with fuel: a turn that finds no byte to read is the last.
unfoldable pub has_in : ℕ → Bytes → Bytes → Bool
unfolding value_is
has_in zero v want = false
has_in (suc f) [] want = false
has_in (suc f) (c ∷ v) want =
    let (t, rest) = token (skip_separators (c ∷ v)) in
    let later = has_in f rest want in if value_is (trim_end t) want then true else later

-- `value_has`
unfoldable pub value_has : Bytes → Bytes → Bool
unfolding has_in
value_has v want = has_in (length v) v want

abbrev pub is_blank_line : Bytes → Bool
is_blank_line s = bytes_eq (take 4 s) (codes "\r\n\r\n")

-- `end - resp`, the first time a blank line ends.
unfoldable pub header_end : Bytes → Option ℕ
header_end [] = none
header_end (c ∷ s) = elim (is_blank_line (c ∷ s)) [
  | true ↦ some 4
  | false ↦ elim (header_end s) [ none ↦ none | some n ↦ some (suc n) ]
]

abbrev pub is_space : ℕ → Bool
is_space c = c == b' ' || leb 9 c && leb c 13

abbrev pub atoi_digits : ℕ → Bytes → ℕ
atoi_digits v [] = v
atoi_digits v (c ∷ s) = elim (leb b'0' c && leb c b'9') [
  | true ↦ atoi_digits (v * 10 + (c - b'0')) s
  | false ↦ v
]

abbrev pub atoi_signed : Bytes → ℤ
atoi_signed [] = pos 0
atoi_signed (c ∷ s) = elim (c == b'-') [
  | true ↦ pos 0 -ℤ pos (atoi_digits 0 s)
  | false ↦ pos (elim (c == b'+') [ true ↦ atoi_digits 0 s | false ↦ atoi_digits 0 (c ∷ s) ])
]

abbrev pub skip_spaces : Bytes → Bytes
skip_spaces [] = []
skip_spaces (c ∷ s) = elim (is_space c) [ true ↦ skip_spaces s | false ↦ c ∷ s ]

unfoldable pub atoi : Bytes → ℤ
unfolding ◌-ℤ◌ to_int32
atoi s = to_int32 (atoi_signed (skip_spaces s))

-- The texts that `say` writes.
pub data Refusal : Type 0 where
  no_end : ℕ → Refusal
  not_http no_upgrade no_connection no_accept no_expected mismatch : Refusal
  status : ℤ → Refusal

pub refusal_text : Refusal → Bytes
refusal_text (no_end n) =
    codes "no end of headers after " ++ (decimal n ++ codes " bytes; not an HTTP server")
refusal_text not_http = codes "response is not HTTP"
refusal_text (status n) =
    codes "server answered " ++ (decimal_ℤ n ++ codes ", not 101 Switching Protocols")
refusal_text no_upgrade = codes "no 'Upgrade: websocket' header"
refusal_text no_connection = codes "no 'Connection: Upgrade' header"
refusal_text no_accept = codes "no Sec-WebSocket-Accept header"
refusal_text no_expected = codes "could not compute the expected accept value"
refusal_text mismatch = codes "Sec-WebSocket-Accept does not match the key we sent"

-- What `ff_ws_handshake_check` returns: SIZE_MAX with a text, 0, or the length of the headers.
pub data Checked : Type 0 where
  refused : Refusal → Checked
  more : Checked
  accepted : ℕ → Checked

-- `!header_value(...) || !test(v, vlen)`, negated.
abbrev pub header_passes : Option Bytes → (Bytes → Bool) → Bool
header_passes none test = false
header_passes (some v) test = test v

-- The last checks: the accept value, against the one expected.
unfoldable pub check_accept : Option Bytes → Option Bytes → ℕ → Checked
check_accept none want hlen = refused no_accept
check_accept (some v) none hlen = refused no_expected
check_accept (some v) (some want) hlen = if bytes_eq v want then accepted hlen else refused mismatch

-- What follows once the end of the headers is found.
unfoldable pub check_headers : Bytes → Bytes → Bytes → ℕ → Checked
unfolding header_value value_is value_has atoi check_accept
check_headers stack resp key hlen =
    let heads = take hlen resp in
    if ltb hlen 12 || not (bytes_eq (take 7 resp) (codes "HTTP/1."))
    then refused not_http
    else if not (eqb_ℤ (atoi (drop 9 resp)) (pos 101))
    then refused (status (atoi (drop 9 resp)))
    else if not
        (header_passes (header_value heads (codes "Upgrade")) (λ v. value_is v (codes "websocket")))
    then refused no_upgrade
    else if not (
        header_passes (header_value heads (codes "Connection"))
          (λ v. value_has v (codes "Upgrade")))
    then refused no_connection
    else check_accept (header_value heads (codes "Sec-WebSocket-Accept")) (accept_for stack key 64)
        hlen

-- `ff_ws_handshake_check`; `stack` is what `struct sha1` finds in its buffer.
unfoldable pub handshake_check : Bytes → Bytes → Bytes → Checked
unfolding header_end check_headers accept_for
handshake_check stack resp key = elim (header_end resp) [
  | none ↦ if ltb 8192 (length resp) then refused (no_end (length resp)) else more
  | some hlen ↦ check_headers stack resp key hlen
]
