-- ===== src/Icrypto/Cipher/Laws.antt =====
-- What is encrypted is decrypted again.
use burnell.Prelude.{
  ℕ, ◌≡◌, refl, sym, subst, inl, inr, false, ◌++◌, some, arith, ltb, length, length-append,
  take-append, drop-append,
}
use burnell.Text.{Text}
use burnell.Result.{Result, ok, Result-cases}
use burnell.Icrypto.Cipher.{
  AesLibrary, Opens, Base64, default_sym_key, encrypt, decrypt, encrypt_with_default_key,
  decrypt_with_default_key, encrypt_with_base64, decrypt_with_base64, RsaLibrary, Decrypts, Rsa,
  new_rsa, rsa_encrypt_with_default_key, rsa_decrypt_with_default_key,
}

-- The random source fills the nonce.
abbrev pub Fills : (ℕ → Result Text) → Type 0
Fills random = (n : ℕ) (nonce : Text) → random n ≡ ok nonce → length nonce ≡ n

not_short : (nonce rest : Text) → ltb (length (nonce ++ rest)) (length nonce) ≡ false
not_short nonce rest = ground (arith, length-append nonce rest)

module _ {Gcm : Type 0} (lib : AesLibrary Gcm) (random : ℕ → Result Text) where
  decrypt-sealed :
      (gcm : Gcm) (nonce plaintext key : Text)
      → Opens lib
      → lib.new_gcm key ≡ ok gcm
      → length nonce ≡ lib.nonce_size gcm
      → decrypt lib random (nonce ++ lib.seal gcm nonce plaintext) key ≡ ok plaintext
  unfolding decrypt
  decrypt-sealed gcm nonce plaintext key o e l =
      let sealed = lib.seal gcm nonce plaintext in
      rw
        (
          decrypt,
          e,
          sym l,
          not_short nonce sealed,
          take-append nonce sealed,
          drop-append nonce sealed,
          o.opens gcm nonce plaintext l,
        )
        refl

  pub decrypt-encrypt :
      (plaintext key ciphertext : Text)
      → Opens lib
      → Fills random
      → encrypt lib random plaintext key ≡ ok ciphertext
      → decrypt lib random ciphertext key ≡ ok plaintext
  unfolding encrypt
  decrypt-encrypt plaintext key ciphertext o f e = elim (Result-cases (lib.new_gcm key)) [
    | inl (gcm, g) ↦ elim (Result-cases (random (lib.nonce_size gcm))) [
      | inl (nonce, n) ↦
          let sealed : nonce ++ lib.seal gcm nonce plaintext ≡ ciphertext =
            ground (arith, g, n, e) in
          subst (λ c. decrypt lib random c key ≡ ok plaintext) sealed
            (decrypt-sealed gcm nonce plaintext key o g (f (lib.nonce_size gcm) nonce n))
      | inr (inl (message, n)) ↦ ground (arith, g, n, e)
      | inr (inr n) ↦ ground (arith, g, n, e)
    ]
    | inr (inl (message, g)) ↦ ground (arith, g, e)
    | inr (inr g) ↦ ground (arith, g, e)
  ]

-- Base64 decodes what it encoded.
abbrev pub Decodes : Base64 → Type 0
Decodes base64 = (text : Text) → base64.decode_string (base64.encode_to_string text) ≡ ok text

-- What `EncryptWithBase64` returns is decrypted by `DecryptWithBase64`, for a cipher that opens what
-- it sealed, a random source that fills the nonce, and Base64 that decodes what it encoded.
pub decrypt_with_base64-encrypt :
    {Gcm : Type 0} (lib : AesLibrary Gcm) (random : ℕ → Result Text) (base64 : Base64)
    (str encoded : Text)
    → Opens lib
    → Fills random
    → Decodes base64
    → encrypt_with_base64 lib random base64 str ≡ ok encoded
    → decrypt_with_base64 lib random base64 encoded ≡ ok str
unfolding encrypt_with_base64 decrypt_with_base64 encrypt_with_default_key decrypt_with_default_key
decrypt_with_base64-encrypt lib random base64 str encoded o f d e =
    elim (Result-cases (encrypt lib random str default_sym_key)) [
      | inl (encrypted, g) ↦
          let sent : base64.encode_to_string encrypted ≡ encoded = ground (arith, g, e) in
          subst (λ text. decrypt_with_base64 lib random base64 text ≡ ok str) sent
            (rw (decrypt_with_base64, d encrypted, decrypt_with_default_key)
              (decrypt-encrypt lib random str default_sym_key encrypted o f g))
      | inr (inl (message, g)) ↦ ground (arith, g, e)
      | inr (inr g) ↦ ground (arith, g, e)
    ]

-- A pair made by `NewRSA` decrypts what it encrypted.
pub rsa_decrypt-encrypt :
    {Priv Pub : Type 0} (lib : RsaLibrary Priv Pub) (keys : Rsa Priv Pub)
    (plaintext ciphertext : Text)
    → Decrypts lib
    → new_rsa lib ≡ ok keys
    → rsa_encrypt_with_default_key lib keys plaintext ≡ ok ciphertext
    → rsa_decrypt_with_default_key lib keys ciphertext ≡ ok plaintext
unfolding new_rsa rsa_encrypt_with_default_key rsa_decrypt_with_default_key
rsa_decrypt-encrypt lib keys plaintext ciphertext d made e = elim (Result-cases lib.generate_key) [
  | inl (key, g) ↦
      let private : keys.my_private_key ≡ some key = ground (arith, g, made) in
      let public : keys.my_public_key ≡ some (lib.public_of key) = ground (arith, g, made) in
      ground (arith, private, public, e, d.decrypts key plaintext ciphertext)
  | inr (inl (message, g)) ↦ ground (arith, g, made)
  | inr (inr g) ↦ ground (arith, g, made)
]
