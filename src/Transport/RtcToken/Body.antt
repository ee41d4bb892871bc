-- ===== src/Transport/RtcToken/Body.antt =====
-- The body of a token, read back by the layout that the module's documentation gives.
use isales_engine.Transport.RtcToken.{
  Bytes, pack_u32, pack_bytes, pack_privilege, pack_service, pack_entries, pack_options, pack_body,
  Stamp, sorted, encode_items, insert_item,
}
use isales_engine.Prelude.{
  ltb, ◌>>=◌, leb, if◌then◌else◌, ltb→lt, Bool-cases, length, take, drop, length-append,
  take-append, drop-append_length, nat_eq, text_eq, Text, Dict, ℕ, zero, suc, ◌+◌, ◌*◌, ◌/◌, ◌%◌,
  ◌^◌, ◌≡◌, refl, sym, ap, ◌∙◌, subst, inl, inr, true, Option, none, some, List, [], ◌∷◌, ◌++◌,
  append_assoc, arith,
}

abbrev pub Reader {ℓ} : Type ℓ → Type ℓ
Reader A = Bytes → Option (A × Bytes)

unfoldable pub read_u32 : Reader ℕ
read_u32 (a ∷ b ∷ c ∷ d ∷ rest) = some (a * 2 ^ 24 + b * 2 ^ 16 + c * 2 ^ 8 + d, rest)
read_u32 _ = none

unfoldable pub read_bytes : Reader Bytes
read_bytes bs = do
  size ← read_u32 bs
  if leb size.0 (length size.1) then some (take size.0 size.1, drop size.0 size.1) else none

unfoldable pub read_privilege : Reader (Option ℕ)
read_privilege (zero ∷ rest) = some (none, rest)
read_privilege (suc zero ∷ rest) = do bits ← read_u32 rest; some (some bits.0, bits.1)
read_privilege _ = none

unfoldable pub read_service : Reader (Bytes × Bytes × Option ℕ)
read_service bs = do
  channel ← read_bytes bs
  user ← read_bytes channel.1
  privilege ← read_privilege user.1
  some ((channel.0, user.0, privilege.0), privilege.1)

unfoldable pub read_entries : ℕ → Reader (Dict Bytes Bytes)
read_entries zero bs = some ([], bs)
read_entries (suc n) bs = do
  key ← read_bytes bs
  value ← read_bytes key.1
  entries ← read_entries n value.1
  some ((key.0, value.0) ∷ entries.0, entries.1)

unfoldable pub read_options : Reader (Option (Dict Bytes Bytes))
read_options (zero ∷ rest) = some (none, rest)
read_options (suc zero ∷ rest) = do
  count ← read_u32 rest
  entries ← read_entries count.0 count.1
  some (some entries.0, entries.1)
read_options _ = none

-- What a body says.
pub record Claims : Type 0 where
  pub app_id : Bytes
  pub stamp : Stamp
  pub channel : Bytes
  pub user : Bytes
  pub options : Option (Dict Bytes Bytes)

unfoldable pub read_body : Reader Claims
read_body bs = do
  app ← read_bytes bs
  issued ← read_u32 app.1
  salted ← read_u32 issued.1
  expires ← read_u32 salted.1
  service ← read_service expires.1
  options ← read_options service.1
  some (
    record {
      app_id = app.0;
      stamp = record {
        expires_at = expires.0;
        issue_ts = issued.0;
        salt = salted.0;
        privilege = service.0.2;
      };
      channel = service.0.0;
      user = service.0.1;
      options = options.0;
    },
    options.1,
  )

bind-some {ℓ κ} :
    {A : Type ℓ} {B : Type κ} (o : Option A) (f : A → Option B) (b : B)
    → (o >>= f) ≡ some b
    → (a : A) × (o ≡ some a) × (f a ≡ some b)
bind-some none f b h = cc
bind-some (some a) f b h = (a, refl, h)

some-injective {ℓ} : {A : Type ℓ} (a b : A) → some a ≡ some b → a ≡ b
some-injective a b h = cc

-- The reader gets back from the bytes what was written, whatever comes behind them.
abbrev Inverts {ℓ} : {A : Type ℓ} → Reader A → A → Option Bytes → Type ℓ
Inverts r a written = (b rest : Bytes) → written ≡ some b → r (b ++ rest) ≡ some (a, rest)

u32-Inverts : (n : ℕ) → Inverts read_u32 n (pack_u32 n)
unfolding pack_u32 read_u32
u32-Inverts n b rest h = elim (Bool-cases (ltb n (2 ^ 32))) [
  | inl fits ↦
      let e : pack_u32 n ≡ some (n / 2 ^ 24 ∷ n / 2 ^ 16 % 256 ∷ n / 2 ^ 8 % 256 ∷ n % 256 ∷ []) =
        rw (fits, pack_u32) refl in
      let again : n / 2 ^ 24 * 2 ^ 24
            + n / 2 ^ 16 % 256 * 2 ^ 16
            + n / 2 ^ 8 % 256 * 2 ^ 8
            + n % 256
          ≡ n =
        omega (arith, ltb→lt n (2 ^ 32) fits) in
      subst (λ w. read_u32 (w ++ rest) ≡ some (n, rest)) (some-injective _ b (sym e ∙ h))
        (ap (λ m. some (m, rest)) again)
  | inr too_large ↦ let e : pack_u32 n ≡ none = rw (too_large, pack_u32) refl in cc (e, h)
]

bytes-Inverts : (x : Bytes) → Inverts read_bytes x (pack_bytes x)
unfolding pack_bytes read_bytes
bytes-Inverts x b rest h =
    let size = bind-some (pack_u32 (length x)) _ b h in
    let fits : leb (length x) (length (x ++ rest)) ≡ true = ground (arith, length-append x rest) in
    subst (λ w. read_bytes (w ++ rest) ≡ some (x, rest)) (some-injective _ b size.2)
      (rw append_assoc (
        rw
          (
            u32-Inverts (length x) size.0 (x ++ rest) size.1,
            fits,
            take-append x rest,
            drop-append_length x rest,
          )
          refl))

privilege-Inverts : (p : Option ℕ) → Inverts read_privilege p (pack_privilege p)
unfolding pack_privilege read_privilege
privilege-Inverts none b rest h =
    subst (λ w. read_privilege (w ++ rest) ≡ some (none, rest)) (some-injective _ b h) refl
privilege-Inverts (some n) b rest h =
    let bits = bind-some (pack_u32 n) _ b h in
    subst (λ w. read_privilege (w ++ rest) ≡ some (some n, rest)) (some-injective _ b bits.2)
      (rw (u32-Inverts n bits.0 rest bits.1) refl)

entries-Inverts : (d : Dict Bytes Bytes) → Inverts (read_entries (length d)) d (pack_entries d)
unfolding pack_entries read_entries
entries-Inverts [] b rest h =
    subst (λ w. read_entries 0 (w ++ rest) ≡ some ([], rest)) (some-injective [] b h) refl
entries-Inverts ((k, v) ∷ d) b rest h =
    let key = bind-some (pack_bytes k) _ b h in
    let value = bind-some (pack_bytes v) _ b key.2 in
    let others = bind-some (pack_entries d) _ b value.2 in
    subst (λ w. read_entries (suc (length d)) (w ++ rest) ≡ some ((k, v) ∷ d, rest))
      (some-injective _ b others.2)
      (rw (append_assoc, append_assoc)
        (rw
          (
            bytes-Inverts k key.0 (value.0 ++ (others.0 ++ rest)) key.1,
            bytes-Inverts v value.0 (others.0 ++ rest) value.1,
            entries-Inverts d others.0 rest others.1,
          )
          refl))

service-Inverts : (c u : Bytes) (p : Option ℕ) → Inverts read_service (c, u, p) (pack_service c u p)
unfolding pack_service read_service
service-Inverts c u p b rest h =
    let channel = bind-some (pack_bytes c) _ b h in
    let user = bind-some (pack_bytes u) _ b channel.2 in
    let flag = bind-some (pack_privilege p) _ b user.2 in
    subst (λ w. read_service (w ++ rest) ≡ some ((c, u, p), rest)) (some-injective _ b flag.2)
      (rw (append_assoc, append_assoc)
        (rw
          (
            bytes-Inverts c channel.0 (user.0 ++ (flag.0 ++ rest)) channel.1,
            bytes-Inverts u user.0 (flag.0 ++ rest) user.1,
            privilege-Inverts p flag.0 rest flag.1,
          )
          refl))

module _ (encode : Text → Bytes) where
  -- The options as a reader sees them: sorted by key, and encoded.
  abbrev pub seen_options : Option (Dict Text Text) → Option (Dict Bytes Bytes)
  seen_options none = none
  seen_options (some d) = some (encode_items encode (sorted d))

  length-insert_item :
      (x : Text × Text) (items : List (Text × Text))
      → length (insert_item x items) ≡ suc (length items)
  unfolding insert_item
  length-insert_item x [] = refl
  length-insert_item x (y ∷ items) = ground (arith, length-insert_item x items)

  length-encode_items-sorted :
      (items : List (Text × Text)) → length (encode_items encode (sorted items)) ≡ length items
  unfolding encode_items sorted
  length-encode_items-sorted items = length-encode_items (sorted items) ∙ length-sorted items
    where
      length-encode_items :
          (items : List (Text × Text)) → length (encode_items encode items) ≡ length items
      length-encode_items [] = refl
      length-encode_items (x ∷ items) = ap suc (length-encode_items items)

      length-sorted : (items : List (Text × Text)) → length (sorted items) ≡ length items
      length-sorted [] = refl
      length-sorted (x ∷ items) = length-insert_item x (sorted items) ∙ ap suc (length-sorted items)

  options-Inverts :
      (o : Option (Dict Text Text)) → Inverts read_options (seen_options o) (pack_options encode o)
  unfolding pack_options read_options
  options-Inverts none b rest h =
      subst (λ w. read_options (w ++ rest) ≡ some (none, rest)) (some-injective _ b h) refl
  options-Inverts (some d) b rest h =
      let items : Dict Bytes Bytes = encode_items encode (sorted d) in
      let count = bind-some (pack_u32 (length d)) _ b h in
      let entries = bind-some (pack_entries items) _ b count.2 in
      subst (λ w. read_options (w ++ rest) ≡ some (some items, rest)) (some-injective _ b entries.2)
        (rw append_assoc (
          rw
            (
              u32-Inverts (length d) count.0 (entries.0 ++ rest) count.1,
              sym (length-encode_items-sorted d),
              entries-Inverts items entries.0 rest entries.1,
            )
            refl))

  -- What the body of a token says: the texts encoded, and the options sorted by their keys.
  abbrev pub said : Text → Text → Text → Stamp → Option (Dict Text Text) → Claims
  said app_id channel user_id stamp options = record {
    app_id = encode app_id;
    stamp = stamp;
    channel = encode channel;
    user = encode user_id;
    options = seen_options options;
  }

  -- A body that is packed can be read back by the documented layout: whatever follows it, the
  -- reader finds its application, times, salt, channel, user, privilege and options, and stops
  -- where the body ends.
  pub read_body-pack_body :
      (app_id channel user_id : Text) (stamp : Stamp) (options : Option (Dict Text Text))
      (b rest : Bytes)
      → pack_body encode app_id channel user_id stamp options ≡ some b
      → read_body (b ++ rest) ≡ some (said app_id channel user_id stamp options, rest)
  unfolding pack_body read_body
  read_body-pack_body app_id channel user_id stamp options b rest h =
      let app = bind-some (pack_bytes (encode app_id)) _ b h in
      let issued = bind-some (pack_u32 stamp.issue_ts) _ b app.2 in
      let salted = bind-some (pack_u32 stamp.salt) _ b issued.2 in
      let expires = bind-some (pack_u32 stamp.expires_at) _ b salted.2 in
      let service =
        bind-some (pack_service (encode channel) (encode user_id) stamp.privilege) _ b expires.2 in
      let opts = bind-some (pack_options encode options) _ b service.2 in
      let after5 : Bytes = opts.0 ++ rest in
      let after4 : Bytes = service.0 ++ after5 in
      let after3 : Bytes = expires.0 ++ after4 in
      let after2 : Bytes = salted.0 ++ after3 in
      subst (λ w. read_body (w ++ rest) ≡ some (said app_id channel user_id stamp options, rest))
        (some-injective _ b opts.2)
        (rw (append_assoc, append_assoc, append_assoc, append_assoc, append_assoc)
          (rw
            (
              bytes-Inverts (encode app_id) app.0 (issued.0 ++ after2) app.1,
              u32-Inverts stamp.issue_ts issued.0 after2 issued.1,
              u32-Inverts stamp.salt salted.0 after3 salted.1,
              u32-Inverts stamp.expires_at expires.0 after4 expires.1,
              service-Inverts (encode channel) (encode user_id) stamp.privilege service.0 after5
                  service.1,
              options-Inverts options opts.0 rest opts.1,
            )
            refl))
