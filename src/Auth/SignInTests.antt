-- ===== src/Auth/SignInTests.antt =====
-- The theorem on signing in with a toy encoding and a toy key derivation.
use safe_file_hub.Base.{
  ℕ, zero, suc, ◌+◌, ◌-◌, ◌≡◌, refl, false, Option, none, some, [], ◌∷◌, ◌++◌, Bytes, bytes_eq,
  codes, length, contains_byte, arith,
}
use safe_file_hub.Base.Split.{Lacks}
use safe_file_hub.Auth.Passwords.{Base64, Argon2, hash_password, User, authenticate}
use safe_file_hub.Auth.SignIn.{authenticate-hash_password}

abbrev raised : Bytes → Bytes
raised [] = []
raised (c ∷ s) = (c + 37) ∷ raised s

abbrev cons_some : ℕ → Option Bytes → Option Bytes
cons_some c none = none
cons_some c (some s) = some (c ∷ s)

abbrev lowered : Bytes → Option Bytes
lowered [] = some []
lowered (c ∷ s) = cons_some (c - 37) (lowered s)

lowered-raised : (s : Bytes) → lowered (raised s) ≡ some s
lowered-raised [] = refl
lowered-raised (c ∷ s) =
    let ih = lowered-raised s in let same : c + 37 - 37 ≡ c = omega arith in rw (ih, same) refl

length-raised : (s : Bytes) → length (raised s) ≡ length s
length-raised [] = refl
length-raised (c ∷ s) = let ih = length-raised s in omega (arith, ih)

raised-Lacks : (s : Bytes) → Lacks b'$' (raised s)
unfolding contains_byte
raised-Lacks [] = refl
raised-Lacks (c ∷ s) = let ih = raised-Lacks s in ground (arith, ih)

abbrev encoding : Base64
encoding = record {
  encode = raised;
  decode = lowered;
  encoded_len = λ n. n;
  decode-encode = lowered-raised;
  length-encode = length-raised;
  encode-Lacks = raised-Lacks;
}

abbrev padded : Bytes → ℕ → Bytes
padded p zero = []
padded [] (suc n) = 0 ∷ padded [] n
padded (c ∷ p) (suc n) = c ∷ padded p n

length-padded : (p : Bytes) (n : ℕ) → length (padded p n) ≡ n
length-padded p zero = refl
length-padded [] (suc n) = let ih = length-padded [] n in omega (arith, ih)
length-padded (c ∷ p) (suc n) = let ih = length-padded p n in omega (arith, ih)

abbrev derivation : Argon2
derivation = record {
  id_key = λ p salt n. padded p n;
  length-id_key = λ p salt n. length-padded p n;
}

abbrev salt : Bytes
salt = padded (codes "salt") 16

abbrev user : User
user = record {
  id = 1;
  password_hash =
      codes "$argon2id$v=19$m=65536,t=3,p=1$"
      ++ raised salt
      ++ b'$' ∷ raised (padded (codes "secret") 32);
  disabled = false;
}

authenticate-hash_password_example :
    authenticate derivation encoding (some user) (codes "secret") ≡ some user
unfolding bytes_eq hash_password
authenticate-hash_password_example =
    authenticate-hash_password derivation encoding salt (codes "secret") (codes "secret") user refl
      refl
