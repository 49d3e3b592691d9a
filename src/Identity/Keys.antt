-- ===== src/Identity/Keys.antt =====
-- The key files: the session key (mint-sniper/src/identity/crypto.rs) and the API token (`load_or_create_token` of
-- mint-sniper/src/auth.rs). A file is its text, where it can be read; what is sampled is an argument, and the crates
-- `hex` and `aes_gcm` are a parameter. The files' permissions are left out.
pub mod Restart
use seasniper.Common.{
  ℕ, zero, suc, String, Bool, Option, none, some, List, [], ◌∷◌, ◌==◌, not, length, is_empty, trim,
  if◌then◌else◌,
}
use seasniper.Common.Results.{Result, ok, err, or_fail, bail_if, ◌>>=◌, ◌>>◌}
use seasniper.Failure.{
  Failure, bad_key_file, key_file_not_written, token_not_written, bad_nonce, cipher,
}

abbrev pub key_material_len : ℕ
key_material_len = 96

pub record Crypto : Type 0 where
  pub hex_encode : List ℕ → String
  pub hex_decode : String → Option (List ℕ)
  pub encrypt : (key nonce plaintext : List ℕ) → Option (List ℕ)
  pub decrypt : (key nonce ciphertext : List ℕ) → Option (List ℕ)

-- `bytes[..n]` and `bytes[n..]`, within bounds.
abbrev pub take : ℕ → List ℕ → List ℕ
take zero bytes = []
take (suc n) [] = []
take (suc n) (b ∷ bytes) = b ∷ take n bytes

abbrev pub drop : ℕ → List ℕ → List ℕ
drop zero bytes = bytes
drop (suc n) [] = []
drop (suc n) (b ∷ bytes) = drop n bytes

-- The two keys, by the bytes that they are made from.
pub record IdentityKeys : Type 0 where
  pub cookie_key : List ℕ
  pub totp_key : List ℕ

abbrev pub keys_of : List ℕ → IdentityKeys
keys_of bytes = record { cookie_key = take 64 bytes; totp_key = take 32 (drop 64 bytes) }

unfoldable pub read_keys : Crypto → (existing : String) → Result Failure IdentityKeys
read_keys c existing = do
  decoded ← or_fail (c.hex_decode (trim existing)) bad_key_file
  bail_if (not (length decoded == key_material_len)) bad_key_file
  ok (keys_of decoded)

-- What the file holds after it, and the keys; `writable` is whether a write of the file succeeds.
unfoldable pub load_or_create :
    Crypto
    → (file : Option String) (sampled : List ℕ) (writable : Bool)
    → Option String × Result Failure IdentityKeys
load_or_create c (some existing) sampled writable = (some existing, read_keys c existing)
load_or_create c none sampled writable =
    if writable
    then (some (c.hex_encode sampled), ok (keys_of sampled))
    else (none, err key_file_not_written)

abbrev pub create_token :
    Crypto
    → (file : Option String) (sampled : List ℕ) (writable : Bool)
    → Option String × Result Failure String
create_token c file sampled writable =
    if writable
    then (some (c.hex_encode sampled), ok (c.hex_encode sampled))
    else (file, err token_not_written)

-- An empty file is written anew.
unfoldable pub load_or_create_token :
    Crypto
    → (file : Option String) (sampled : List ℕ) (writable : Bool)
    → Option String × Result Failure String
load_or_create_token c none sampled writable = create_token c none sampled writable
load_or_create_token c (some existing) sampled writable =
    if not (is_empty (trim existing))
    then (some existing, ok (trim existing))
    else create_token c (some existing) sampled writable

-- The ciphertext and the nonce that are stored.
unfoldable pub encrypt_totp_secret :
    Crypto → (key nonce plaintext : List ℕ) → Result Failure (List ℕ × List ℕ)
encrypt_totp_secret c key nonce plaintext = do
  ciphertext ← or_fail (c.encrypt key nonce plaintext) (cipher "encrypting")
  ok (ciphertext, nonce)

unfoldable pub decrypt_totp_secret :
    Crypto → (key ciphertext nonce : List ℕ) → Result Failure (List ℕ)
decrypt_totp_secret c key ciphertext nonce = do
  bail_if (not (length nonce == 12)) bad_nonce
  or_fail (c.decrypt key nonce ciphertext) (cipher "decrypting")
