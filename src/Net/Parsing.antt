-- ===== src/Net/Parsing.antt =====
-- Reading back a URL that is written out of its parts, and what a URL that is read is like.
use obs_foxfire.Net.{
  Url, split_scheme, is_secure, ends_authority, authority, last_colon, plain_host, host_port,
  all_digits, read_port, read_path, read_rest, url_parse,
}
use obs_foxfire.Prelude.{
  leb, ◌==◌, Bool-cases, Option-cases, length, Bytes, codes, bytes_eq, bytes_eq_iff, ◌≤◌, ◌≡◌, refl,
  sym, ap, subst, inl, inr, Bool, true, false, not, ◌||◌, Option, none, some, [], ◌∷◌, ◌++◌, arith,
}

-- How a URL is written.
pub written : Url → Bytes
written u = u.scheme ++ (codes "://" ++ (u.host ++ (b':' ∷ (u.port ++ u.path))))

-- No byte that ends an authority, and no colon or bracket.
abbrev pub IsHostname : Bytes → Type 0
IsHostname [] = Unit
IsHostname (c ∷ s) = ((ends_authority c || (c == b':' || c == b'[')) ≡ false) × IsHostname s

abbrev pub StartsPath : Bytes → Type 0
StartsPath [] = ⊥
StartsPath (c ∷ s) = (c == b'/' || c == b'?') ≡ true

authority_digits :
    (port path : Bytes)
    → all_digits port ≡ true
    → StartsPath path
    → authority (port ++ path) ≡ (port, path)
unfolding authority
authority_digits [] [] d h = absurd h
authority_digits [] (c ∷ s) d h = elim (Bool-cases (ends_authority c)) [
  | inl e ↦ rw (authority, e) refl
  | inr e ↦ ground (arith, e, h)
]
authority_digits (c ∷ port) path d h =
    let e : ends_authority c ≡ false = ground (arith, d) in
    rw (authority, e, authority_digits port path (ground (arith, d)) h) refl

authority_host :
    (host port path : Bytes)
    → IsHostname host
    → all_digits port ≡ true
    → StartsPath path
    → authority (host ++ (b':' ∷ (port ++ path))) ≡ (host ++ (b':' ∷ port), path)
unfolding authority
authority_host [] port path n d h = rw (authority_digits port path d h) refl
authority_host (c ∷ host) port path n d h =
    let e : ends_authority c ≡ false = ground (arith, n) in
    rw (authority, e, authority_host host port path n.1 d h) refl

no_colon : (port : Bytes) → all_digits port ≡ true → last_colon port ≡ none
unfolding last_colon
no_colon [] d = refl
no_colon (c ∷ port) d =
    let e : (c == b':') ≡ false = ground (arith, d) in
    rw (no_colon port (ground (arith, d)), e) refl

colon_between :
    (host port : Bytes)
    → all_digits port ≡ true
    → last_colon (host ++ (b':' ∷ port)) ≡ some (host, port)
unfolding last_colon
colon_between [] port d = rw (no_colon port d) refl
colon_between (c ∷ host) port d = rw (colon_between host port d) refl

host_port_plain :
    (host port : Bytes)
    → IsHostname host
    → all_digits port ≡ true
    → host_port (host ++ (b':' ∷ port)) ≡ some (host, some port)
unfolding host_port plain_host
host_port_plain [] port n d = rw (host_port, plain_host, colon_between [] port d) refl
host_port_plain (c ∷ host) port n d =
    let e : (c == b'[') ≡ false = ground (arith, n) in
    rw (host_port, e, plain_host, colon_between (c ∷ host) port d) refl

read_path_same : (path : Bytes) → StartsPath path → length path ≤ 511 → read_path path ≡ some path
unfolding read_path
read_path_same [] h l = absurd h
read_path_same (c ∷ s) h l = ground (arith, h, l)

scheme_back :
    (scheme rest : Bytes) (secure : Bool)
    → is_secure scheme ≡ some secure
    → split_scheme (scheme ++ (codes "://" ++ rest)) ≡ some (scheme, rest)
unfolding split_scheme is_secure
scheme_back scheme rest secure h = elim (Bool-cases (bytes_eq scheme (codes "wss"))) [
  | inl e ↦
      subst (λ s. split_scheme (s ++ (codes "://" ++ rest)) ≡ some (s, rest))
        (sym ((bytes_eq_iff scheme (codes "wss")).0 e)) refl
  | inr n1 ↦ elim (Bool-cases (bytes_eq scheme (codes "https"))) [
    | inl e ↦
        subst (λ s. split_scheme (s ++ (codes "://" ++ rest)) ≡ some (s, rest))
          (sym ((bytes_eq_iff scheme (codes "https")).0 e)) refl
    | inr n2 ↦ elim (Bool-cases (bytes_eq scheme (codes "ws"))) [
      | inl e ↦
          subst (λ s. split_scheme (s ++ (codes "://" ++ rest)) ≡ some (s, rest))
            (sym ((bytes_eq_iff scheme (codes "ws")).0 e)) refl
      | inr n3 ↦ elim (Bool-cases (bytes_eq scheme (codes "http"))) [
        | inl e ↦
            subst (λ s. split_scheme (s ++ (codes "://" ++ rest)) ≡ some (s, rest))
              (sym ((bytes_eq_iff scheme (codes "http")).0 e)) refl
        | inr n4 ↦ ground (arith, (rw (n1, n2, n3, n4) at h))
      ]
    ]
  ]
]

pub record IsUrl (u : Url) : Type 0 where
  pub known : is_secure u.scheme ≡ some u.secure
  pub named : IsHostname u.host
  pub host_fits : (1 ≤ length u.host) × (length u.host ≤ 255)
  pub port_fits : (1 ≤ length u.port) × (length u.port ≤ 7)
  pub digits : all_digits u.port ≡ true
  pub starts : StartsPath u.path
  pub path_fits : length u.path ≤ 511

scheme_fits :
    (scheme : Bytes) (secure : Bool)
    → is_secure scheme ≡ some secure
    → (length scheme == 0 || leb 8 (length scheme)) ≡ false
unfolding is_secure
scheme_fits scheme secure h = elim (Bool-cases (length scheme == 0 || leb 8 (length scheme))) [
  | inr fits ↦ fits
  | inl long ↦ ground (
    arith,
    h,
    long,
    bytes_eq_iff scheme (codes "wss"),
    bytes_eq_iff scheme (codes "https"),
    bytes_eq_iff scheme (codes "ws"),
    bytes_eq_iff scheme (codes "http"),
  )
]

port_same :
    (port : Bytes) (secure : Bool)
    → (1 ≤ length port) × (length port ≤ 7)
    → all_digits port ≡ true
    → read_port (some port) secure ≡ some port
unfolding read_port
port_same [] secure fits d = ground (arith, fits)
port_same (c ∷ s) secure fits d = ground (arith, fits, d)

-- A URL written out of a known scheme, a host name without brackets, a port of digits and a path, all of which fit,
-- is read back.
pub url_parse-written : (u : Url) → IsUrl u → url_parse (written u) ≡ some u
unfolding url_parse written read_rest
url_parse-written u h =
    let misfit : (length u.host == 0 || leb 256 (length u.host)) ≡ false =
      ground (arith, h.host_fits) in
    rw
      (
        url_parse,
        written,
        scheme_back u.scheme (u.host ++ (b':' ∷ (u.port ++ u.path))) u.secure h.known,
        scheme_fits u.scheme u.secure h.known,
        h.known,
        read_rest,
        authority_host u.host u.port u.path h.named h.digits h.starts,
        host_port_plain u.host u.port h.named h.digits,
        misfit,
        port_same u.port u.secure h.port_fits h.digits,
        ap (λ p. p.1) (authority_host u.host u.port u.path h.named h.digits h.starts),
        read_path_same u.path h.starts h.path_fits,
      )
      refl

-- What a URL that was read is like.
pub record IsRead (u : Url) : Type 0 where
  pub known : is_secure u.scheme ≡ some u.secure
  pub host_fits : (1 ≤ length u.host) × (length u.host ≤ 255)
  pub port_fits : (1 ≤ length u.port) × (length u.port ≤ 7)
  pub digits : all_digits u.port ≡ true
  pub starts : StartsPath u.path
  pub path_fits : length u.path ≤ 511

abbrev EndsThere : Bytes → Type 0
EndsThere [] = Unit
EndsThere (c ∷ s) = ends_authority c ≡ true

authority_ends : (rest : Bytes) → EndsThere (authority rest).1
unfolding authority
authority_ends [] = tt
authority_ends (c ∷ s) = elim (Bool-cases (ends_authority c)) [
  | inl e ↦ rw (authority, e) e
  | inr e ↦ rw (authority, e) (authority_ends s)
]

some_same : {A : Type 0} (a b : A) → some a ≡ some b → a ≡ b
some_same a b h = cc

path_read :
    (end path : Bytes)
    → EndsThere end
    → read_path end ≡ some path
    → StartsPath path × (length path ≤ 511)
unfolding read_path
path_read [] path n h =
    subst (λ p. StartsPath p × (length p ≤ 511)) (some_same (codes "/") path h) (refl, omega arith)
path_read (c ∷ s) path n h = elim (Bool-cases (c == b'#')) [
  | inl e ↦
      subst (λ p. StartsPath p × (length p ≤ 511)) (some_same (codes "/") path (rw e at h))
        (refl, omega arith)
  | inr e ↦ elim (Bool-cases (leb 512 (length (c ∷ s)))) [
    | inl long ↦ ground (arith, (rw (e, long) at h))
    | inr fits ↦
        subst (λ p. StartsPath p × (length p ≤ 511)) (some_same (c ∷ s) path (rw (e, fits) at h))
          (ground (arith, n, e), ground (arith, fits))
  ]
]

port_read :
    (o : Option Bytes) (secure : Bool) (port : Bytes)
    → read_port o secure ≡ some port
    → ((1 ≤ length port) × (length port ≤ 7)) × (all_digits port ≡ true)
unfolding read_port
port_read none true port h =
    subst (λ p. ((1 ≤ length p) × (length p ≤ 7)) × (all_digits p ≡ true))
      (some_same (codes "443") port h) ((omega arith, omega arith), refl)
port_read none false port h =
    subst (λ p. ((1 ≤ length p) × (length p ≤ 7)) × (all_digits p ≡ true))
      (some_same (codes "80") port h) ((omega arith, omega arith), refl)
port_read (some []) secure port h = ground (arith, h)
port_read (some (c ∷ s)) secure port h =
    elim (Bool-cases (leb 8 (length (c ∷ s)) || not (all_digits (c ∷ s)))) [
      | inl bad ↦ ground (arith, (rw bad at h))
      | inr fits ↦
          subst (λ p. ((1 ≤ length p) × (length p ≤ 7)) × (all_digits p ≡ true))
            (some_same (c ∷ s) port (rw fits at h))
            ((omega arith, ground (arith, fits)), ground (arith, fits))
    ]

read_rest-IsRead :
    (scheme rest : Bytes) (secure : Bool) (u : Url)
    → is_secure scheme ≡ some secure
    → read_rest scheme secure rest ≡ some u
    → IsRead u
unfolding read_rest
read_rest-IsRead scheme rest secure u known h = elim (Option-cases (host_port (authority rest).0)) [
  | inl e ↦ ground (arith, (rw (read_rest, e) at h))
  | inr ((host, o), e) ↦ elim (Bool-cases (length host == 0 || leb 256 (length host))) [
    | inl bad ↦ ground (arith, (rw (read_rest, e, bad) at h))
    | inr fits ↦ elim (Option-cases (read_port o secure)) [
      | inl e1 ↦ ground (arith, (rw (read_rest, e, fits, e1) at h))
      | inr (port, e1) ↦ elim (Option-cases (read_path (authority rest).1)) [
        | inl e2 ↦ ground (arith, (rw (read_rest, e, fits, e1, e2) at h))
        | inr (path, e2) ↦
            let (l, d) = port_read o secure port e1 in
            let (starts, m) = path_read (authority rest).1 path (authority_ends rest) e2 in
            let v : Url = record {
              scheme = scheme;
              host = host;
              port = port;
              path = path;
              secure = secure;
            } in
            let good : IsRead v = record {
              known = known;
              host_fits = (ground (arith, fits), ground (arith, fits));
              port_fits = l;
              digits = d;
              starts = starts;
              path_fits = m;
            } in
            subst IsRead (some_same v u (rw (read_rest, e, fits, e1, e2) at h)) good
      ]
    ]
  ]
]

-- A URL that is read has a scheme that is known and decides about TLS, a host of 1 to 255 bytes, a port of 1 to 7
-- digits, and a path of at most 511 bytes that begins with a slash or a question mark.
pub url_parse-IsRead : (url : Bytes) (u : Url) → url_parse url ≡ some u → IsRead u
unfolding url_parse
url_parse-IsRead url u h = elim (Option-cases (split_scheme url)) [
  | inl e ↦ ground (arith, (rw (url_parse, e) at h))
  | inr ((scheme, rest), e) ↦ elim (Bool-cases (length scheme == 0 || leb 8 (length scheme))) [
    | inl bad ↦ ground (arith, (rw (url_parse, e, bad) at h))
    | inr fits ↦ elim (Option-cases (is_secure scheme)) [
      | inl e1 ↦ ground (arith, (rw (url_parse, e, fits, e1) at h))
      | inr (secure, e1) ↦
          read_rest-IsRead scheme rest secure u e1 (rw (url_parse, e, fits, e1) at h)
    ]
  ]
]
