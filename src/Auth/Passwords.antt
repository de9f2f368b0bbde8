-- ===== src/Auth/Passwords.antt =====
-- `HashPassword`, `VerifyPassword` and `parseHash` of internal/auth/password.go, and `Authenticate`.
--
-- Argon2id and the base64 encoding are parameters; passwords and hashes are bytes.
use safe_file_hub.Base.{
  ℕ, ◌≡◌, Bool, false, not, ◌||◌, Option, none, some, List, [], ◌∷◌, ◌++◌, ltb, ◌==◌, Bytes,
  bytes_eq, codes, length, split, if◌then◌else◌,
}
use safe_file_hub.Base.Split.{Lacks}

-- `base64.RawStdEncoding`, with what is documented of it.
pub record Base64 : Type 0 where
  pub encode : Bytes → Bytes
  pub decode : Bytes → Option Bytes
  pub encoded_len : ℕ → ℕ
  pub decode-encode : (s : Bytes) → decode (encode s) ≡ some s
  pub length-encode : (s : Bytes) → length (encode s) ≡ encoded_len (length s)
  pub encode-Lacks : (s : Bytes) → Lacks b'$' (encode s)

-- `argon2.IDKey` with the fixed parameters: password, salt and length of the key.
pub record Argon2 : Type 0 where
  pub id_key : Bytes → Bytes → ℕ → Bytes
  pub length-id_key : (password salt : Bytes) (n : ℕ) → length (id_key password salt n) ≡ n

abbrev pub salt_length : ℕ
salt_length = 16

abbrev pub key_length : ℕ
key_length = 32

abbrev pub default_parameters : Bytes
default_parameters = codes "m=65536,t=3,p=1"

-- `HashPassword`, with the salt that it draws.
unfoldable pub hash_password : Argon2 → Base64 → Bytes → Bytes → Option Bytes
hash_password kdf b64 salt password =
    if bytes_eq password []
    then none
    else some (
        b'$' ∷ codes "argon2id"
        ++ b'$' ∷ codes "v=19"
        ++ b'$' ∷ default_parameters
        ++ b'$' ∷ b64.encode salt
        ++ b'$' ∷ b64.encode (kdf.id_key password salt key_length))

unfoldable pub of_length : ℕ → Option Bytes → Option Bytes
of_length n none = none
of_length n (some s) = if length s == n then some s else none

unfoldable pub both : Option Bytes → Option Bytes → Option (Bytes × Bytes)
both none key = none
both (some s) none = none
both (some s) (some k) = some (s, k)

-- The salt and the key, of parts that have passed the bounds.
unfoldable pub decoded_parts : Base64 → Bytes → Bytes → Option (Bytes × Bytes)
unfolding of_length both
decoded_parts b64 salt key =
    both (of_length salt_length (b64.decode salt)) (of_length key_length (b64.decode key))

-- The parts between the dollar signs; the first one is not looked at. Parameters that are the
-- default ones are scanned.
unfoldable pub parse_parts : Base64 → List Bytes → Option (Bytes × Bytes)
unfolding decoded_parts
parse_parts b64 (first ∷ name ∷ version ∷ parameters ∷ salt ∷ key ∷ []) =
    if not (bytes_eq name (codes "argon2id")) || not (bytes_eq version (codes "v=19"))
    then none
    else if not (bytes_eq parameters default_parameters)
    then none
    else if ltb (b64.encoded_len salt_length) (length salt)
        || ltb (b64.encoded_len key_length) (length key)
    then none
    else decoded_parts b64 salt key
parse_parts b64 _ = none

-- `parseHash`
unfoldable pub parse_hash : Base64 → Bytes → Option (Bytes × Bytes)
unfolding parse_parts
parse_hash b64 encoded = parse_parts b64 (split b'$' encoded)

unfoldable pub verify_parsed : Argon2 → Bytes → Option (Bytes × Bytes) → Bool
verify_parsed kdf password none = false
verify_parsed kdf password (some (salt, expected)) =
    bytes_eq (kdf.id_key password salt (length expected)) expected

-- `VerifyPassword`
unfoldable pub verify_password : Argon2 → Base64 → Bytes → Bytes → Bool
unfolding verify_parsed parse_hash
verify_password kdf b64 encoded password = verify_parsed kdf password (parse_hash b64 encoded)

-- What `Authenticate` reads of `db.User`.
pub record User : Type 0 where
  pub id : ℕ
  pub password_hash : Bytes
  pub disabled : Bool

-- `Authenticate`, with what `UserByUsername` has returned; an error and a missing user are none.
unfoldable pub authenticate : Argon2 → Base64 → Option User → Bytes → Option User
unfolding verify_password
authenticate kdf b64 none password = none
authenticate kdf b64 (some u) password =
    if u.disabled
    then none
    else if not (verify_password kdf b64 u.password_hash password)
    then none
    else some u
