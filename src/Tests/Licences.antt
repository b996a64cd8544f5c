-- ===== src/Tests/Licences.antt =====
-- A licence file.
use obs_foxfire.Licence.{number, judge, number, judge, verify, need, b64dec, ok, newer, invalid}
use obs_foxfire.Licence.Verdict.{Sound, verify-Sound}
use obs_foxfire.Licence.Base64.{b64dec-b64}
use obs_foxfire.Ws.Digest.{b64}
use obs_foxfire.Prelude.{
  replicate, Bytes, codes, bytes_eq, ◌≡◌, refl, sym, ◌∙◌, ◌≢◌, Bool, false, none, some, [], ◌∷◌,
  arith,
}
use obs_foxfire.Prelude.Int.{pos}

-- A signature check that wants 64 zero bytes, whatever the key, and a text.
abbrev check : Bytes → Bytes → Bytes → Bool
check sig key [] = false
check sig key (c ∷ text) = bytes_eq sig (replicate 64 0)

abbrev file : Bytes
file =
    codes
      "{\"discord_id\": \"1\", \"pack_id\":\"p\", \"licence_id\" : \"l\", \"issued\": 5, \"entitled_through\": 900 , \"sig\": \"AAAAAAAAAAAAAAAAAAAAAAAAAAAAAAAAAAAAAAAAAAAAAAAAAAAAAAAAAAAAAAAAAAAAAAAAAAAAAAAAAAAAAA==\"}"

granted : (verify check file [] (some (codes "p")) (pos 900)).state ≡ ok
unfolding verify need number judge
granted = refl

too_new : (verify check file [] (some (codes "p")) (pos 901)).state ≡ newer
unfolding verify need number judge
too_new = refl

other_pack :
    (verify check file [] (some (codes "q")) (pos 900)).reason
    ≡ codes "licence is for pack 'p', not 'q'"
unfolding verify need number judge
other_pack = refl

no_issued :
    (verify check
      (codes "{\"discord_id\":\"1\",\"pack_id\":\"p\",\"licence_id\":\"l\"}")
      []
      none
      (pos 0)).reason
    ≡ codes "licence file has no 'issued' field"
unfolding verify need number judge
no_issued = refl

ok_ne : ok ≢ invalid
ok_ne h = ground (arith, h)

verify-Sound_example :
    Sound check [] (some (codes "p")) (pos 900) (verify check file [] (some (codes "p")) (pos 900))
verify-Sound_example =
    verify-Sound check [] (some (codes "p")) file (pos 900) (λ e. ok_ne (sym granted ∙ e))

b64dec-b64_example : b64dec (codes "AQL/") 8 ≡ some (1 ∷ 2 ∷ 255 ∷ [])
unfolding b64
b64dec-b64_example =
    b64dec-b64 (1 ∷ 2 ∷ 255 ∷ []) 8 8 (codes "AQL/") (omega arith) (omega arith) refl
