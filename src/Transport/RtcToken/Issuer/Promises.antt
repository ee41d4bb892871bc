-- ===== src/Transport/RtcToken/Issuer/Promises.antt =====
-- What credentials say when `sign` gives any.
use native.Mathlib.Nat.{mod-lt}
use isales_engine.Transport.RtcToken.{build_token}
use isales_engine.Transport.RtcToken.Issuer.{
  Issuer, Credentials, Signed, signed, failed, value_error, or_default, Request, fresh_salt,
  credentials, Crypto, stamp_of, sign,
}
use isales_engine.Prelude.{
  ltb, Bool-cases, nat_eq, text_eq, Text, non_empty, ℕ, ◌+◌, ◌%◌, ◌≤◌, ◌<◌, max, ◌≡◌, refl, sym, ap,
  ◌∙◌, subst, inl, inr, true, ◌&&◌, Option, none, some, arith,
}

-- Credentials that may be handed out for a request.
pub record IsGranted (issuer : Issuer) (now : ℕ) (channel user_id : Text) (request : Request)
    (c : Credentials) : Type 0 where
  pub named : (c.channel ≡ channel) × (c.user_id ≡ user_id) × (c.app_id ≡ issuer.app_id)
  pub nameable : (non_empty channel ≡ true) × (non_empty user_id ≡ true)
  pub lifetime : c.expires_at ≡ now + or_default request.ttl_seconds issuer.default_ttl_seconds
  pub alive : now < c.expires_at
  pub salted : request.salt ≡ none → (1 ≤ c.salt) × (c.salt ≤ max c.issue_ts 1)

salt-bounds :
    (salt : Option ℕ) (draw issue_ts : ℕ)
    → salt ≡ none
    → (1 ≤ or_default salt (fresh_salt draw issue_ts))
      × (or_default salt (fresh_salt draw issue_ts) ≤ max issue_ts 1)
unfolding or_default fresh_salt
salt-bounds none draw issue_ts h =
    let small : draw % max issue_ts 1 < max issue_ts 1 = mod-lt draw (omega arith) in
    (omega arith, omega arith)
salt-bounds (some n) draw issue_ts h = cc

abbrev given : Credentials → Signed Credentials → Credentials
given d (signed c) = c
given d (failed e) = d

module _ (issuer : Issuer) (now : ℕ) (channel user_id : Text) (request : Request) (draw : ℕ)
    (nameable : (non_empty channel ≡ true) × (non_empty user_id ≡ true))
    (lives : 0 < or_default request.ttl_seconds issuer.default_ttl_seconds) where
  credentials-IsGranted :
      (crypto : Crypto) (token : Option Text) (c : Credentials)
      → credentials issuer channel user_id (stamp_of crypto issuer now draw request) token
        ≡ signed c
      → IsGranted issuer now channel user_id request c
  unfolding credentials stamp_of
  credentials-IsGranted crypto none c h = cc
  credentials-IsGranted crypto (some token) c h =
      subst (IsGranted issuer now channel user_id request) (ap (given c) h) (record {
        named = (refl, refl, refl);
        nameable = nameable;
        lifetime = refl;
        alive = omega arith;
        salted = salt-bounds request.salt draw (or_default request.issue_ts now);
      })

module _ (crypto : Crypto) (issuer : Issuer) where
  -- Credentials that `sign` gives are for the channel and user asked for, neither of them empty,
  -- expire later than now, by the time to live of the request or the issuer's default, and their
  -- salt, unless the caller sets it, is at least 1 and at most the time of issue, or 1 where that is
  -- 0.
  pub sign-IsGranted :
      (now draw : ℕ) (channel user_id : Text) (request : Request) (c : Credentials)
      → sign crypto issuer now draw channel user_id request ≡ signed c
      → IsGranted issuer now channel user_id request c
  unfolding sign
  sign-IsGranted now draw channel user_id request c h =
      let ttl = or_default request.ttl_seconds issuer.default_ttl_seconds in
      let stamp = stamp_of crypto issuer now draw request in
      let token =
        build_token crypto.encode crypto.hmac crypto.compress crypto.base64 issuer.app_id
          issuer.app_key channel user_id stamp request.engine_options in
      elim (Bool-cases (non_empty channel && (non_empty user_id && ltb 0 ttl))) [
        | inl fine ↦
            let e : sign crypto issuer now draw channel user_id request
                ≡ credentials issuer channel user_id stamp token =
              rw (fine, sign) refl in
            credentials-IsGranted issuer now channel user_id request draw
              (ground arith, ground arith) (ground arith) crypto token c (sym e ∙ h)
        | inr bad ↦
            let e : sign crypto issuer now draw channel user_id request ≡ failed value_error =
              rw (bad, sign) refl in
            cc (e, h)
      ]
