-- ===== src/Identity/Keys/Restart.antt =====
-- What the key files keep across a restart (mint-sniper/src/identity/crypto.rs, mint-sniper/src/auth.rs).
use seasniper.Common.{ℕ, Bool, true, false, none, some, List, ◌≡◌, refl, ap, length, is_empty, trim}
use seasniper.Common.Results.{ok}
use seasniper.Identity.Keys.{
  Crypto, keys_of, read_keys, load_or_create, load_or_create_token, encrypt_totp_secret,
  decrypt_totp_secret,
}

-- What the crates promise of the bytes that were sampled: hexadecimal digits are not white space, and decode to the
-- bytes; and what AES-GCM seals, it opens.
pub record Promises (c : Crypto) (bytes : List ℕ) : Type 0 where
  pub digits : trim (c.hex_encode bytes) ≡ c.hex_encode bytes
  pub nonempty : is_empty (c.hex_encode bytes) ≡ false
  pub decodes : c.hex_decode (c.hex_encode bytes) ≡ some bytes

pub record Seals (c : Crypto) (key nonce plaintext : List ℕ) : Type 0 where
  pub ciphertext : List ℕ
  pub sealed : c.encrypt key nonce plaintext ≡ some ciphertext
  pub opens : c.decrypt key nonce ciphertext ≡ some plaintext

-- A start without files, and a restart on what it left, whatever is sampled then.
pub record Restarted (c : Crypto) (key_bytes token_bytes : List ℕ) : Type 0 where
  pub same_keys :
      (sampled : List ℕ) (writable : Bool)
      → load_or_create c (load_or_create c none key_bytes true).0 sampled writable
        ≡ load_or_create c none key_bytes true
  pub same_token :
      (sampled : List ℕ) (writable : Bool)
      → load_or_create_token c (load_or_create_token c none token_bytes true).0 sampled writable
        ≡ load_or_create_token c none token_bytes true
  pub secrets :
      (nonce plaintext : List ℕ)
      → length nonce ≡ 12
      → (s : Seals c (keys_of key_bytes).totp_key nonce plaintext)
      → (encrypt_totp_secret c (keys_of key_bytes).totp_key nonce plaintext
          ≡ ok (s.ciphertext, nonce))
        × (decrypt_totp_secret c (keys_of key_bytes).totp_key s.ciphertext nonce ≡ ok plaintext)

read_keys-encode :
    (c : Crypto) (bytes : List ℕ)
    → Promises c bytes
    → length bytes ≡ 96
    → read_keys c (c.hex_encode bytes) ≡ ok (keys_of bytes)
unfolding read_keys
read_keys-encode c bytes p whole = rw p.digits (rw p.decodes (rw whole refl))

-- The keys and the token that a first start samples are those of every later start, and a TOTP secret that was sealed
-- before a restart opens after it.
pub load_or_create-Restarted :
    (c : Crypto) (key_bytes token_bytes : List ℕ)
    → Promises c key_bytes
    → Promises c token_bytes
    → length key_bytes ≡ 96
    → Restarted c key_bytes token_bytes
unfolding load_or_create load_or_create_token encrypt_totp_secret decrypt_totp_secret
load_or_create-Restarted c key_bytes token_bytes pk pt whole = record {
  same_keys = λ sampled writable.
      ap (λ r. (some (c.hex_encode key_bytes), r)) (read_keys-encode c key_bytes pk whole);
  same_token = λ sampled writable. rw pt.digits (rw pt.nonempty refl);
  secrets = λ nonce plaintext twelve s. (rw s.sealed refl, rw twelve (rw s.opens refl));
}
