-- ===== src/Transport/RtcToken/Issuer/Examples.antt =====
-- An issuer and a request with the defaults, and the theorem on isales_engine/transport/rtc_token.py.
use isales_engine.Transport.RtcToken.Issuer.{Issuer, Credentials, signed, Request, Crypto, sign}
use isales_engine.Transport.RtcToken.Issuer.Promises.{IsGranted, sign-IsGranted}
use isales_engine.Prelude.{nat_eq, text_eq, text, ◌≡◌, refl, none, some, [], ◌∷◌}

abbrev short : Crypto
short = record {
  encode = λ s. s;
  hmac = λ k m. 1 ∷ 2 ∷ [];
  compress = λ b. [];
  base64 = λ b. text "AA==";
}

abbrev issuer : Issuer
issuer = record { app_id = text "app"; app_key = text "key"; default_ttl_seconds = 43_200 }

abbrev request : Request
request = record {
  ttl_seconds = none;
  issue_ts = none;
  salt = none;
  engine_options = some [];
  privilege = none;
}

abbrev edge_credentials : Credentials
edge_credentials = record {
  app_id = text "app";
  channel = text "c-1";
  user_id = text "edge-c-1";
  token = text "000AA==";
  expires_at = 1_700_043_200;
  issue_ts = 1_700_000_000;
  salt = 8;
}

granted :
    sign short issuer 1_700_000_000 7 (text "c-1") (text "edge-c-1") request
    ≡ signed edge_credentials
unfolding sign
granted = refl

sign-IsGranted_example :
    IsGranted issuer 1_700_000_000 (text "c-1") (text "edge-c-1") request edge_credentials
sign-IsGranted_example =
    sign-IsGranted short issuer 1_700_000_000 7 (text "c-1") (text "edge-c-1") request
      edge_credentials granted
