-- ===== src/Transport/RtcToken/Examples.antt =====
-- A short body, and the theorems on isales_engine/transport/rtc_token.py at it.
use isales_engine.Transport.RtcToken.{Bytes, pack_body, Stamp}
use isales_engine.Transport.RtcToken.Body.{read_body, said, read_body-pack_body}
use isales_engine.Prelude.{
  nat_eq, text_eq, Text, text, Dict, ◌≡◌, refl, Option, none, some, [], ◌∷◌, ◌++◌,
}

abbrev ascii : Text → Bytes
ascii s = s

abbrev stamp : Stamp
stamp = record {
  expires_at = 1_700_043_200;
  issue_ts = 1_700_000_000;
  salt = 42;
  privilege = some 2;
}

abbrev options : Option (Dict Text Text)
options = some ((text "b", text "2") ∷ (text "a", text "1") ∷ [])

abbrev packed : Option Bytes
packed = pack_body ascii (text "app") (text "c-1") (text "edge-c-1") stamp options

abbrev body : Bytes
body = elim packed [ none ↦ [] | some b ↦ b ]

packs : packed ≡ some body
unfolding pack_body
packs = refl

read_body-pack_body_example :
    read_body (body ++ 0 ∷ 0 ∷ [])
    ≡ some (said ascii (text "app") (text "c-1") (text "edge-c-1") stamp options, 0 ∷ 0 ∷ [])
read_body-pack_body_example =
    read_body-pack_body ascii (text "app") (text "c-1") (text "edge-c-1") stamp options body
      (0 ∷ 0 ∷ []) packs
