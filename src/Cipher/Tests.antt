-- ===== src/Cipher/Tests.antt =====
-- The cipher with a service that puts a byte before the payload and takes it off again.
use mathlib.Core.List.{flatten}
use web_sdk.Base.{ℕ, ◌≡◌, refl, sym, ap, ◌∙◌, List, [], ◌∷◌, ◌++◌, none, some, ok, drop, append-nil}
use web_sdk.Bytes.{concat_uint8}
use web_sdk.Cipher.{CryptoService, Decrypts, encrypt, decrypt, decrypt-encrypt}

abbrev pub marking : CryptoService
marking = record {
  encrypt = λ payload iv. ok (9 ∷ payload, none);
  decrypt = λ ciphertext iv. ok (drop 1 ciphertext);
  hmac = λ content. ok (7 ∷ []);
}

pub marking-Decrypts : Decrypts marking
unfolding Decrypts flatten
marking-Decrypts payload iv ciphertext none e =
    let c : 9 ∷ payload ≡ ciphertext = cc in ap (λ r. ok (drop 1 r)) (append-nil ciphertext ∙ sym c)
marking-Decrypts payload iv ciphertext (some t) e = cc

abbrev pub vector : List ℕ
vector = 1 ∷ 2 ∷ 3 ∷ 4 ∷ 5 ∷ 6 ∷ 7 ∷ 8 ∷ 9 ∷ 10 ∷ 11 ∷ 12 ∷ []

marked : encrypt marking (42 ∷ []) vector ≡ ok (vector ++ (9 ∷ 42 ∷ []))
unfolding encrypt concat_uint8
marked = refl

decrypt-encrypt_example : decrypt marking (vector ++ (9 ∷ 42 ∷ [])) ≡ ok (42 ∷ [])
decrypt-encrypt_example =
    decrypt-encrypt marking (42 ∷ []) vector (vector ++ (9 ∷ 42 ∷ [])) marking-Decrypts refl marked
