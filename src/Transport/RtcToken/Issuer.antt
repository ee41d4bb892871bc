-- ===== src/Transport/RtcToken/Issuer.antt =====
-- isales_engine/transport/rtc_token.py: `RtcTokenIssuer`, which checks its arguments and fills in
-- times. Times are seconds since the epoch; a time to live that is not positive is 0 here.
pub mod Promises
mod Examples
use isales_engine.Transport.RtcToken.{Bytes, Stamp, build_token, default_ttl}
use isales_engine.Prelude.{
  ltb, if◌then◌else◌, nat_eq, text_eq, Text, text, non_empty, Dict, ℕ, ◌+◌, ◌%◌, max, ◌&&◌, Option,
  none, some, [], ◌++◌,
}

pub record Issuer : Type 0 where
  pub app_id : Text
  pub app_key : Text
  pub default_ttl_seconds : ℕ

pub record Credentials : Type 0 where
  pub app_id : Text
  pub channel : Text
  pub user_id : Text
  pub token : Text
  pub expires_at : ℕ
  pub issue_ts : ℕ
  pub salt : ℕ

pub data SignError : Type 0 where
  value_error struct_error : SignError

pub data Signed {ℓ} (A : Type ℓ) : Type ℓ where
  signed : A → Signed A
  failed : SignError → Signed A

-- `RtcTokenIssuer(…)`; `none` is a `ValueError`.
unfoldable pub new : Text → Text → ℕ → Option Issuer
new app_id app_key ttl =
    if non_empty app_id && (non_empty app_key && ltb 0 ttl)
    then some (record { app_id = app_id; app_key = app_key; default_ttl_seconds = ttl })
    else none

unfoldable pub or_default : Option ℕ → ℕ → ℕ
or_default none default = default
or_default (some n) default = n

-- What `sign` is asked for beside the channel and the user.
pub record Request : Type 0 where
  pub ttl_seconds : Option ℕ
  pub issue_ts : Option ℕ
  pub salt : Option ℕ
  pub engine_options : Option (Dict Text Text)
  pub privilege : Option ℕ

-- `secrets.randbelow(max(issue_ts_v, 1)) + 1`, with the number that is drawn
unfoldable pub fresh_salt : ℕ → ℕ → ℕ
fresh_salt draw issue_ts = draw % max issue_ts 1 + 1

unfoldable pub credentials : Issuer → Text → Text → Stamp → Option Text → Signed Credentials
credentials issuer channel user_id stamp none = failed struct_error
credentials issuer channel user_id stamp (some token) = signed (record {
  app_id = issuer.app_id;
  channel = channel;
  user_id = user_id;
  token = token;
  expires_at = stamp.expires_at;
  issue_ts = stamp.issue_ts;
  salt = stamp.salt;
})

-- The libraries that a token is made with.
pub record Crypto : Type 0 where
  pub encode : Text → Bytes
  pub hmac : Bytes → Bytes → Bytes
  pub compress : Bytes → Bytes
  pub base64 : Bytes → Text

-- the defaults of `sign`
unfoldable pub plain : Option ℕ → Request
plain ttl_seconds = record {
  ttl_seconds = ttl_seconds;
  issue_ts = none;
  salt = none;
  engine_options = some [];
  privilege = none;
}

unfoldable pub both : Signed Credentials → Signed Credentials → Signed (Credentials × Credentials)
both (failed e) edge = failed e
both (signed c) (failed e) = failed e
both (signed c) (signed d) = signed (c, d)

module _ (crypto : Crypto) (issuer : Issuer) where
  unfoldable pub stamp_of : ℕ → ℕ → Request → Stamp
  unfolding or_default fresh_salt
  stamp_of now draw request =
      let issue_ts = or_default request.issue_ts now in
      record {
        expires_at = now + or_default request.ttl_seconds issuer.default_ttl_seconds;
        issue_ts = issue_ts;
        salt = or_default request.salt (fresh_salt draw issue_ts);
        privilege = request.privilege;
      }

  -- `now` is `time.time()` or the argument of that name.
  unfoldable pub sign : ℕ → ℕ → Text → Text → Request → Signed Credentials
  unfolding or_default stamp_of credentials build_token
  sign now draw channel user_id request =
      let stamp = stamp_of now draw request in
      if non_empty channel
        && (non_empty user_id && ltb 0 (or_default request.ttl_seconds issuer.default_ttl_seconds))
      then credentials issuer channel user_id stamp (
          build_token crypto.encode crypto.hmac crypto.compress crypto.base64 issuer.app_id
            issuer.app_key channel user_id stamp request.engine_options)
      else failed value_error

  -- The two calls of `sign` read the clock and draw on their own.
  unfoldable pub sign_for_call :
      ℕ × ℕ → ℕ × ℕ → Text → Option ℕ → Signed (Credentials × Credentials)
  unfolding sign plain both
  sign_for_call engine_draw edge_draw call_id ttl_seconds =
      if non_empty call_id
      then both
          (sign engine_draw.0 engine_draw.1 call_id (text "engine-" ++ call_id) (plain ttl_seconds))
          (sign edge_draw.0 edge_draw.1 call_id (text "edge-" ++ call_id) (plain ttl_seconds))
      else failed value_error
