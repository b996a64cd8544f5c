-- ===== src/Licence.antt =====
-- src/ff-licence.c and src/ff-licence.h: the licence file of a paid pack. `memmem`, `memchr` and
-- `strtoll` are written as what C says of them for the arguments they get here; a pointer into the
-- file is the rest of the file from there on. `crypto_ed25519_check` (vendor/monocypher) is a
-- parameter: whether it accepts the signature, the public key and the message.
pub mod Verdict
pub mod Base64
use obs_foxfire.Prelude.Text.{decimal_ℤ}
use obs_foxfire.Ws.Digest.{alphabet}
use mathlib.Core.Option
use obs_foxfire.Prelude.{
  leb, ◌==◌, if◌then◌else◌, length, Bytes, codes, is_empty, bytes_eq, clip, cstr, ℕ, zero, suc, ◌+◌,
  ◌-◌, ◌*◌, ◌/◌, ◌%◌, ◌^◌, min, Bool, true, false, not, ◌&&◌, ◌||◌, Option, none, some, [], ◌∷◌,
  ◌++◌,
}
use obs_foxfire.Prelude.Int.{ℤ, pos, sub_ℕ, leb_ℤ}

-- `enum ff_lic_state`
pub data State : Type 0 where
  unchecked ok newer invalid : State

-- `struct ff_licence`
pub record Licence : Type 0 where
  pub state : State
  pub discord_id : Bytes
  pub pack_id : Bytes
  pub licence_id : Bytes
  pub issued : ℤ
  pub entitled_through : ℤ
  pub reason : Bytes

abbrev pub is_space : ℕ → Bool
is_space c = c == b' ' || (c == b'\t' || (c == b'\n' || c == b'\r'))

-- `skip_ws`
unfoldable pub skip_ws : Bytes → Bytes
skip_ws [] = []
skip_ws (c ∷ p) = elim (is_space c) [ true ↦ skip_ws p | false ↦ c ∷ p ]

abbrev pub starts_with : Bytes → Bytes → Option Bytes
starts_with [] p = some p
starts_with (x ∷ xs) [] = none
starts_with (x ∷ xs) (c ∷ p) = elim (x == c) [ true ↦ starts_with xs p | false ↦ none ]

-- `memmem(p, end - p, pat, pl) + pl`, for a pattern that is not empty.
unfoldable pub after_match : Bytes → Bytes → Option Bytes
after_match pat [] = none
after_match pat (c ∷ p) = elim (starts_with pat (c ∷ p)) [
  | none ↦ after_match pat p
  | some rest ↦ some rest
]

-- What stands after a colon.
abbrev pub after_colon : Bytes → Option Bytes
after_colon [] = none
after_colon (c ∷ p) = elim (c == b':') [ true ↦ some (skip_ws p) | false ↦ none ]

-- The loop of `find_value`, with fuel: each turn goes past at least one byte.
unfoldable pub find_from : ℕ → Bytes → Bytes → Option Bytes
unfolding after_match skip_ws
find_from zero pat p = none
find_from (suc f) pat p = elim (after_match pat p) [
  | none ↦ none
  | some rest ↦ elim (after_colon (skip_ws rest)) [ none ↦ find_from f pat rest | some v ↦ some v ]
]

unfoldable pub find_value : Bytes → Bytes → Option Bytes
unfolding find_from
find_value j key =
    if leb 80 (length key + 2) then none else find_from (length j) (b'"' ∷ (key ++ (b'"' ∷ []))) j

-- What the getters return: 0, -1, or 1 with the value.
pub data Got {ℓ} (A : Type ℓ) : Type ℓ where
  absent unusable : Got A
  found : A → Got A

-- What stands before the next quote.
abbrev pub before_quote : Bytes → Option Bytes
before_quote [] = none
before_quote (c ∷ p) = elim (c == b'"') [
  | true ↦ some []
  | false ↦ Option.map (◌∷◌ c) (before_quote p)
]

-- A buffer of `cap` bytes, from which all users read a C string.
abbrev pub string_into : ℕ → Option Bytes → Got Bytes
string_into cap none = unusable
string_into cap (some s) = if leb cap (length s) then unusable else found (cstr s)

abbrev pub quoted_string : ℕ → Bytes → Got Bytes
quoted_string cap [] = unusable
quoted_string cap (c ∷ p) = if c == b'"' then string_into cap (before_quote p) else unusable

-- `get_str`
unfoldable pub get_str : Bytes → Bytes → ℕ → Got Bytes
get_str j key cap = elim (find_value j key) [ none ↦ absent | some p ↦ quoted_string cap p ]

abbrev pub is_digit : ℕ → Bool
is_digit c = leb b'0' c && leb c b'9'

-- At most `k` digits, and what follows them.
abbrev pub digits : ℕ → Bytes → Bytes × Bytes
digits zero p = ([], p)
digits (suc k) [] = ([], [])
digits (suc k) (c ∷ p) = elim (is_digit c) [
  | true ↦ let (ds, rest) = digits k p in (c ∷ ds, rest)
  | false ↦ ([], c ∷ p)
]

abbrev pub value_onto : ℕ → Bytes → ℕ
value_onto v [] = v
value_onto v (c ∷ ds) = value_onto (v * 10 + (c - b'0')) ds

-- `strtoll` of a sign and digits: out of range, the nearest `long long`.
abbrev pub to_long_long : Bool → Bytes → ℤ
to_long_long false ds = pos (min (value_onto 0 ds) (2 ^ 63 - 1))
to_long_long true ds = sub_ℕ 0 (min (value_onto 0 ds) (2 ^ 63))

-- The end of the file or a delimiter.
abbrev pub ends_value : Bytes → Bool
ends_value [] = true
ends_value (c ∷ p) = c == b',' || (c == b'}' || c == b']')

-- The digits that follow the sign; `room` is what `num` has left for them.
unfoldable pub number : Bool → ℕ → Bytes → Got ℤ
unfolding skip_ws
number minus room p =
    let (ds, rest) = digits room p in
    if is_empty ds
    then unusable
    else if ends_value (skip_ws rest)
    then found (to_long_long minus ds)
    else unusable

abbrev pub signed_number : Bytes → Got ℤ
signed_number [] = unusable
signed_number (c ∷ p) =
    if c == b'-'
    then number true 23 p
    else if c == b'+'
    then number false 23 p
    else number false 24 (c ∷ p)

-- `get_int`
unfoldable pub get_int : Bytes → Bytes → Got ℤ
get_int j key = elim (find_value j key) [ none ↦ absent | some p ↦ signed_number p ]

-- `strchr(T, c) - T`
unfoldable pub index_of : Bytes → ℕ → Option ℕ
index_of [] c = none
index_of (x ∷ xs) c = elim (x == c) [ true ↦ some 0 | false ↦ Option.map suc (index_of xs c) ]

-- The loop of `b64dec`: the accumulator, the bits in it, the room left in `out` and the text; `none`
-- is -1.
unfoldable pub b64dec_from : ℕ → ℕ → ℕ → Bytes → Option Bytes
unfolding index_of
b64dec_from acc bits room [] = some []
b64dec_from acc bits room (c ∷ s) = elim (c == b'=') [
  | true ↦ some []
  | false ↦ elim (index_of alphabet c) [
    | none ↦ none
    | some t ↦
        let acc' = (acc * 2 ^ 6 + t) % 2 ^ 32 in
        elim (leb 8 (bits + 6)) [
          | false ↦ b64dec_from acc' (bits + 6) room s
          | true ↦ elim room [
            | zero ↦ none
            | suc room' ↦
                Option.map (◌∷◌ (acc' / 2 ^ (bits + 6 - 8) % 256))
                  (b64dec_from acc' (bits + 6 - 8) room' s)
          ]
        ]
  ]
]

-- `b64dec`
unfoldable pub b64dec : Bytes → ℕ → Option Bytes
unfolding b64dec_from
b64dec s cap = b64dec_from 0 0 cap s

-- `ff_licence_canonical`; `none` is the return of 0.
unfoldable pub canonical : Bytes → Bytes → Bytes → ℤ → ℤ → ℕ → Option Bytes
unfolding decimal_ℤ
canonical discord_id pack_id licence_id issued entitled_through cap =
    let s =
      codes "{\"discord_id\":\""
      ++ (discord_id
          ++ (codes "\",\"entitled_through\":"
              ++ (decimal_ℤ entitled_through
                  ++ (codes ",\"issued\":"
                      ++ (decimal_ℤ issued
                          ++ (codes ",\"licence_id\":\""
                              ++ (licence_id
                                  ++ (codes "\",\"pack_id\":\""
                                      ++ (pack_id ++ codes "\"}"))))))))) in
    if leb cap (length s) then none else some s

abbrev pub because : Licence → Bytes → Licence
because l why = record l { reason = clip 160 why }

-- One turn of the loop over `fields`; `next` is the rest of it.
unfoldable pub need : {A : Type 0} → Licence → Bytes → Bytes → Got A → (A → Licence) → Licence
need l key what absent next = because l (codes "licence file has no '" ++ (key ++ codes "' field"))
need l key what unusable next =
    because l (codes "licence file's '" ++ (key ++ (codes "' field is not a usable " ++ what)))
need l key what (found a) next = next a

-- The comparison with the release date.
unfoldable pub entitle : Licence → ℤ → Licence
entitle l pack_released =
    if leb_ℤ pack_released l.entitled_through
    then record l { state = ok }
    else because (record l { state = newer })
        (codes
          "this pack was released after your subscription ended; everything you already have keeps working")

-- `expected_pack_id && strcmp(L->pack_id, expected_pack_id) != 0`
abbrev pub is_for_other : Bytes → Option Bytes → Bool
is_for_other id none = false
is_for_other id (some want) = not (bytes_eq id want)

abbrev pub wrong_pack : Licence → Option Bytes → Bytes
wrong_pack l none = []
wrong_pack l (some want) =
    codes "licence is for pack '" ++ (l.pack_id ++ (codes "', not '" ++ (want ++ codes "'")))

-- The fields as read, before the signature is looked at.
abbrev pub unread : Licence
unread = record {
  state = invalid;
  discord_id = [];
  pack_id = [];
  licence_id = [];
  issued = pos 0;
  entitled_through = pos 0;
  reason = [];
}

module _ (check : Bytes → Bytes → Bytes → Bool) where
  -- What follows once the signature is decoded.
  unfoldable pub judge : Licence → Bytes → Bytes → Option Bytes → ℤ → Licence
  unfolding canonical entitle
  judge l sig pubkey expected pack_released =
      let unverified = because l (codes "licence signature does not verify") in
      elim (canonical l.discord_id l.pack_id l.licence_id l.issued l.entitled_through 512) [
        | none ↦ unverified
        | some canon ↦
            if check sig pubkey canon
            then (if is_for_other l.pack_id expected
                then because l (wrong_pack l expected)
                else entitle l pack_released)
            else unverified
      ]

  -- What follows once the fields are read.
  unfoldable pub check_signature : Licence → Bytes → Bytes → Option Bytes → ℤ → Licence
  unfolding b64dec
  check_signature l sig64 pubkey expected pack_released =
      let unsigned = because l (codes "licence signature is not 64 bytes of base64") in
      elim (b64dec sig64 64) [
        | none ↦ unsigned
        | some sig ↦
            if length sig == 64 then judge l sig pubkey expected pack_released else unsigned
      ]

  -- `ff_licence_verify`
  unfoldable pub verify : Bytes → Bytes → Option Bytes → ℤ → Licence
  unfolding get_str get_int find_value check_signature
  verify json pubkey expected pack_released =
      need unread (codes "discord_id") (codes "string") (get_str json (codes "discord_id") 32) (λ d.
        let l1 = record unread { discord_id = d } in
        need l1 (codes "pack_id") (codes "string") (get_str json (codes "pack_id") 64) (λ p.
          let l2 = record l1 { pack_id = p } in
          need l2 (codes "licence_id") (codes "string") (get_str json (codes "licence_id") 64) (λ i.
            let l3 = record l2 { licence_id = i } in
            need l3 (codes "issued") (codes "number") (get_int json (codes "issued")) (λ n.
              let l4 = record l3 { issued = n } in
              need l4 (codes "entitled_through") (codes "number")
                (get_int json (codes "entitled_through"))
                (λ e.
                  let l5 = record l4 { entitled_through = e } in
                  need l5 (codes "sig") (codes "string") (get_str json (codes "sig") 128)
                    (λ s. check_signature l5 s pubkey expected pack_released))))))
