-- ===== src/Transport/RtcToken.antt =====
-- isales_engine/transport/rtc_token.py: the tokens for the RTC rooms. Bytes are numbers. What the
-- standard library gives is a parameter: UTF-8, HMAC-SHA256, zlib and base64. `struct.pack(">I", …)`
-- fails outside 32 bits, which is `none` here.
pub mod Issuer
pub mod Padding
pub mod Body
mod Examples
use isales_engine.Prelude.{
  ltb, ◌>>=◌, leb, if◌then◌else◌, length, take, replicate, nat_eq, text_eq, ◌==◌, Text, text, Dict,
  ℕ, zero, suc, ◌-◌, ◌*◌, ◌/◌, ◌%◌, ◌^◌, Bool, true, false, Option, none, some, List, [], ◌∷◌, ◌++◌,
}

abbrev pub Bytes : Type 0
Bytes = List ℕ

abbrev pub version_0 : Text
version_0 = text "000"

abbrev pub default_ttl : ℕ
default_ttl = 12 * 3600

unfoldable pub pack_u32 : ℕ → Option Bytes
pack_u32 n =
    if ltb n (2 ^ 32)
    then some (n / 2 ^ 24 ∷ n / 2 ^ 16 % 256 ∷ n / 2 ^ 8 % 256 ∷ n % 256 ∷ [])
    else none

-- `while fixed < n: fixed *= 2`
unfoldable pub double_until : ℕ → ℕ → ℕ → ℕ
double_until zero fixed n = fixed
double_until (suc fuel) fixed n =
    let rest = double_until fuel (fixed * 2) n in if ltb fixed n then rest else fixed

-- The fuel is the bound itself: each round adds one at least.
unfoldable pub next_pow2_multiple_of_256 : ℕ → ℕ
unfolding double_until
next_pow2_multiple_of_256 n = if n == 0 then 0 else double_until n 256 n

unfoldable pub pad256 : Bytes → Bytes
unfolding next_pow2_multiple_of_256
pad256 src =
    let target = next_pow2_multiple_of_256 (length src) in
    if leb target (length src) then take target src else src ++ replicate (target - length src) 0

-- `buf.write(_pack_u32(len(b))); buf.write(b)`
unfoldable pub pack_bytes : Bytes → Option Bytes
unfolding pack_u32
pack_bytes b = do size ← pack_u32 (length b); some (size ++ b)

-- the `>?I` of a privilege or the `>?`
unfoldable pub pack_privilege : Option ℕ → Option Bytes
unfolding pack_u32
pack_privilege none = some (0 ∷ [])
pack_privilege (some privilege) = do bits ← pack_u32 privilege; some (1 ∷ bits)

unfoldable pub pack_service : Bytes → Bytes → Option ℕ → Option Bytes
unfolding pack_bytes pack_privilege
pack_service cid uid privilege = do
  channel ← pack_bytes cid
  user ← pack_bytes uid
  flag ← pack_privilege privilege
  some (channel ++ user ++ flag)

unfoldable pub pack_entries : Dict Bytes Bytes → Option Bytes
unfolding pack_bytes
pack_entries [] = some []
pack_entries ((k, v) ∷ entries) = do
  key ← pack_bytes k
  value ← pack_bytes v
  rest ← pack_entries entries
  some (key ++ value ++ rest)

-- The order of Python's `str`.
unfoldable pub text_le : Text → Text → Bool
text_le [] bs = true
text_le (a ∷ at) [] = false
text_le (a ∷ at) (b ∷ bs) =
    let rest = text_le at bs in if ltb a b then true else if a == b then rest else false

-- `sorted(engine_options.items())`, by insertion; the keys of a dict differ.
unfoldable pub insert_item : Text × Text → List (Text × Text) → List (Text × Text)
unfolding text_le
insert_item item [] = item ∷ []
insert_item item (other ∷ items) =
    let rest = insert_item item items in
    if text_le (item.0) (other.0) then item ∷ other ∷ items else other ∷ rest

unfoldable pub sorted : List (Text × Text) → List (Text × Text)
unfolding insert_item
sorted [] = []
sorted (item ∷ items) = insert_item item (sorted items)

-- The arguments of `_build_token` but for the channel, the user and the options, which are texts.
pub record Stamp : Type 0 where
  pub expires_at : ℕ
  pub issue_ts : ℕ
  pub salt : ℕ
  pub privilege : Option ℕ

module _ (encode : Text → Bytes) where
  unfoldable pub encode_items : List (Text × Text) → Dict Bytes Bytes
  encode_items [] = []
  encode_items ((k, v) ∷ items) = (encode k, encode v) ∷ encode_items items

  unfoldable pub pack_options : Option (Dict Text Text) → Option Bytes
  unfolding pack_u32 pack_entries sorted encode_items
  pack_options none = some (0 ∷ [])
  pack_options (some engine_options) = do
    count ← pack_u32 (length engine_options)
    entries ← pack_entries (encode_items (sorted engine_options))
    some (1 ∷ count ++ entries)

  -- `body` of `_build_token` before it is padded
  unfoldable pub pack_body : Text → Text → Text → Stamp → Option (Dict Text Text) → Option Bytes
  unfolding pack_u32 pack_bytes pack_service pack_options
  pack_body app_id channel user_id stamp engine_options = do
    app ← pack_bytes (encode app_id)
    issued ← pack_u32 stamp.issue_ts
    salted ← pack_u32 stamp.salt
    expires ← pack_u32 stamp.expires_at
    service ← pack_service (encode channel) (encode user_id) stamp.privilege
    options ← pack_options engine_options
    some (app ++ issued ++ salted ++ expires ++ service ++ options)

  -- `hmac key message` is `hmac.new(key, message, sha256).digest()`.
  module _ (hmac : Bytes → Bytes → Bytes) where
    unfoldable pub generate_sign_key : Text → ℕ → ℕ → Option Bytes
    unfolding pack_u32
    generate_sign_key app_key issue_ts salt = do
      issued ← pack_u32 issue_ts
      salted ← pack_u32 salt
      some (hmac salted (hmac issued (encode app_key)))

    -- `outer` of `_build_token`, padded
    unfoldable pub signed_body :
        Text → Text → Text → Text → Stamp → Option (Dict Text Text) → Option Bytes
    unfolding generate_sign_key pack_body pad256 pack_bytes
    signed_body app_id app_key channel user_id stamp engine_options = do
      sign_key ← generate_sign_key app_key stamp.issue_ts stamp.salt
      body ← pack_body app_id channel user_id stamp engine_options
      signature ← pack_bytes (hmac sign_key (pad256 body))
      some (pad256 (signature ++ pad256 body))

    unfoldable pub build_token :
        (Bytes → Bytes)
        → (Bytes → Text)
        → Text
        → Text
        → Text
        → Text
        → Stamp
        → Option (Dict Text Text)
        → Option Text
    unfolding signed_body
    build_token compress base64 app_id app_key channel user_id stamp engine_options = do
      outer ← signed_body app_id app_key channel user_id stamp engine_options
      some (version_0 ++ base64 (compress outer))
