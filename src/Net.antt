-- ===== src/Net.antt =====
-- `ff_url_parse` of src/ff-net.c, which splits the URL of a socket; `struct ff_url` is in src/ff-net.h.
-- A null pointer is not modelled; `none` is the return of false.
pub mod Parsing
pub mod Open
pub mod Http
use obs_foxfire.Prelude.{
  ltb, leb, ◌==◌, if◌then◌else◌, length, take, drop, Bytes, codes, is_empty, bytes_eq, ℕ, Bool,
  true, false, not, ◌&&◌, ◌||◌, Option, none, some, [], ◌∷◌,
}

-- `struct ff_url`
pub record Url : Type 0 where
  pub scheme : Bytes
  pub host : Bytes
  pub port : Bytes
  pub path : Bytes
  pub secure : Bool

-- `strstr(url, "://")`: what is before it and what is behind it.
unfoldable pub split_scheme : Bytes → Option (Bytes × Bytes)
split_scheme [] = none
split_scheme (c ∷ s) = elim (bytes_eq (take 3 (c ∷ s)) (codes "://")) [
  | true ↦ some ([], drop 3 (c ∷ s))
  | false ↦ elim (split_scheme s) [ none ↦ none | some (before, rest) ↦ some (c ∷ before, rest) ]
]

-- Whether TLS is used, for the schemes that are known.
unfoldable pub is_secure : Bytes → Option Bool
is_secure s =
    if bytes_eq s (codes "wss") || bytes_eq s (codes "https")
    then some true
    else if bytes_eq s (codes "ws") || bytes_eq s (codes "http")
    then some false
    else none

abbrev pub ends_authority : ℕ → Bool
ends_authority c = c == b'/' || (c == b'?' || c == b'#')

-- The authority, and `end`.
unfoldable pub authority : Bytes → Bytes × Bytes
authority [] = ([], [])
authority (c ∷ s) = elim (ends_authority c) [
  | true ↦ ([], c ∷ s)
  | false ↦ let (a, rest) = authority s in (c ∷ a, rest)
]

-- What is before the first `']'` and what is behind it.
unfoldable pub bracketed : Bytes → Option (Bytes × Bytes)
bracketed [] = none
bracketed (c ∷ s) = elim (c == b']') [
  | true ↦ some ([], s)
  | false ↦ elim (bracketed s) [ none ↦ none | some (before, rest) ↦ some (c ∷ before, rest) ]
]

-- What is before the last `':'` and what is behind it.
unfoldable pub last_colon : Bytes → Option (Bytes × Bytes)
last_colon [] = none
last_colon (c ∷ s) = elim (last_colon s) [
  | some (before, rest) ↦ some (c ∷ before, rest)
  | none ↦ if c == b':' then some ([], s) else none
]

-- The host, and the port if there is a colon.
unfoldable pub plain_host : Bytes → Bytes × Option Bytes
unfolding last_colon
plain_host a = elim (last_colon a) [ none ↦ (a, none) | some (host, port) ↦ (host, some port) ]

abbrev pub behind_bracket : Bytes → Bytes → Option (Bytes × Option Bytes)
behind_bracket host [] = some (host, none)
behind_bracket host (c ∷ port) = if c == b':' then some (host, some port) else none

unfoldable pub host_port : Bytes → Option (Bytes × Option Bytes)
unfolding plain_host bracketed
host_port [] = some (plain_host [])
host_port (c ∷ a) = elim (c == b'[') [
  | true ↦ elim (bracketed a) [ none ↦ none | some (host, rest) ↦ behind_bracket host rest ]
  | false ↦ some (plain_host (c ∷ a))
]

abbrev pub all_digits : Bytes → Bool
all_digits [] = true
all_digits (c ∷ s) = not (ltb c b'0' || ltb b'9' c) && all_digits s

-- The port that is written, or the one of the scheme.
unfoldable pub read_port : Option Bytes → Bool → Option Bytes
read_port none secure = some (if secure then codes "443" else codes "80")
read_port (some port) secure =
    if is_empty port || (leb 8 (length port) || not (all_digits port)) then none else some port

-- The path from `end` on; the empty one and a fragment are the root.
unfoldable pub read_path : Bytes → Option Bytes
read_path [] = some (codes "/")
read_path (c ∷ s) =
    if c == b'#' then some (codes "/") else if leb 512 (length (c ∷ s)) then none else some (c ∷ s)

-- What follows "://".
unfoldable pub read_rest : Bytes → Bool → Bytes → Option Url
unfolding authority host_port read_port read_path
read_rest scheme secure rest =
    let (a, end) = authority rest in
    elim (host_port a) [
      | none ↦ none
      | some (host, port) ↦
          if length host == 0 || leb 256 (length host) then none else elim (read_port port secure) [
            | none ↦ none
            | some p ↦ elim (read_path end) [
              | none ↦ none
              | some path ↦
                  some (record {
                    scheme = scheme;
                    host = host;
                    port = p;
                    path = path;
                    secure = secure;
                  })
            ]
          ]
    ]

-- `ff_url_parse`
unfoldable pub url_parse : Bytes → Option Url
unfolding split_scheme is_secure read_rest
url_parse url = elim (split_scheme url) [
  | none ↦ none
  | some (scheme, rest) ↦
      if length scheme == 0 || leb 8 (length scheme)
      then none
      else elim (is_secure scheme) [ none ↦ none | some secure ↦ read_rest scheme secure rest ]
]
