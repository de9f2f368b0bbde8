-- ===== src/Auth/SignIn.antt =====
-- A stored hash is verified by the passwords that have the same key.
use safe_file_hub.Base.{
  ℕ, ◌≡◌, refl, ap, ◌∙◌, subst, Bool, true, false, not, ◌&&◌, none, some, [], ◌∷◌, ◌++◌, ltb, Bytes,
  bytes_eq, codes, length, split, if◌then◌else◌, contains_byte, arith,
}
use safe_file_hub.Base.Split.{split-append, split-Lacks}
use safe_file_hub.Auth.Passwords.{
  Base64, Argon2, salt_length, key_length, default_parameters, hash_password, of_length, both,
  decoded_parts, parse_parts, parse_hash, verify_parsed, verify_password, User, authenticate,
}

module _ (kdf : Argon2) (b64 : Base64) where
  decoded_parts-encode :
      (salt key : Bytes)
      → length salt ≡ salt_length
      → length key ≡ key_length
      → decoded_parts b64 (b64.encode salt) (b64.encode key) ≡ some (salt, key)
  unfolding decoded_parts of_length both
  decoded_parts-encode salt key n m =
      rw (b64.decode-encode salt, b64.decode-encode key) (ground (arith, n, m))

  not_longer : (part limit : ℕ) → part ≡ limit → ltb limit part ≡ false
  not_longer part limit e = ground (arith, e)

  -- The parts of a hash.
  split-hash :
      (salt key : Bytes)
      → split b'$' (
          b'$' ∷ codes "argon2id"
          ++ b'$' ∷ codes "v=19"
          ++ b'$' ∷ default_parameters
          ++ b'$' ∷ b64.encode salt
          ++ b'$' ∷ b64.encode key)
        ≡ []
          ∷ codes "argon2id"
          ∷ codes "v=19"
          ∷ default_parameters
          ∷ b64.encode salt
          ∷ b64.encode key
          ∷ []
  unfolding contains_byte
  split-hash salt key =
      let s = b64.encode salt in
      let k = b64.encode key in
      let last = split-Lacks b'$' k (b64.encode-Lacks key) in
      let four = split-append b'$' s k (b64.encode-Lacks salt) in
      let three = split-append b'$' default_parameters (s ++ b'$' ∷ k) refl in
      let two =
        split-append b'$' (codes "v=19") (default_parameters ++ b'$' ∷ s ++ b'$' ∷ k) refl in
      let one =
        split-append b'$' (codes "argon2id")
          (codes "v=19" ++ b'$' ∷ default_parameters ++ b'$' ∷ s ++ b'$' ∷ k) refl in
      let zero_ =
        split-append b'$' []
          (codes "argon2id"
            ++ b'$' ∷ codes "v=19"
            ++ b'$' ∷ default_parameters
            ++ b'$' ∷ s
            ++ b'$' ∷ k)
          refl in
      rw (zero_, one, two, three, four, last) refl

  made : (b : Bool) (x t : Bytes) → (if b then none else some x) ≡ some t → x ≡ t
  made true x t e = absurd (ground (arith, e))
  made false x t e = ground (arith, e)

  parse_hash-hash :
      (salt password : Bytes) {h : Bytes}
      → length salt ≡ salt_length
      → hash_password kdf b64 salt password ≡ some h
      → parse_hash b64 h ≡ some (salt, kdf.id_key password salt key_length)
  unfolding hash_password parse_hash parse_parts bytes_eq
  parse_hash-hash salt password {h} n e =
      let key = kdf.id_key password salt key_length in
      let m = kdf.length-id_key password salt key_length in
      let s =
        not_longer (length (b64.encode salt)) (b64.encoded_len salt_length)
          (b64.length-encode salt ∙ ap b64.encoded_len n) in
      let k =
        not_longer (length (b64.encode key)) (b64.encoded_len key_length)
          (b64.length-encode key ∙ ap b64.encoded_len m) in
      subst (λ t. parse_hash b64 t ≡ some (salt, key)) (made (bytes_eq password []) _ h e)
        (rw (split-hash salt key, s, k) (decoded_parts-encode salt key n m))

-- Whoever signs in with a password, against a hash that `HashPassword` made of some password, gets the
-- user exactly when the user is not disabled and the two passwords have the same key under the salt of
-- the hash.
pub authenticate-hash_password :
    (kdf : Argon2) (b64 : Base64) (salt password attempt : Bytes) (u : User)
    → length salt ≡ salt_length
    → hash_password kdf b64 salt password ≡ some u.password_hash
    → authenticate kdf b64 (some u) attempt ≡ (
        if not u.disabled
          && bytes_eq (kdf.id_key attempt salt key_length) (kdf.id_key password salt key_length)
        then some u
        else none)
unfolding authenticate verify_password verify_parsed
authenticate-hash_password kdf b64 salt password attempt u n e =
    let parsed = parse_hash-hash kdf b64 salt password n e in
    let m = kdf.length-id_key password salt key_length in rw (parsed, m) (ground arith)
