-- ===== src/Cipher/Tests.antt =====
-- The theorems about the cipher, applied to a toy cipher that leaves the plaintext as it is.
use fieldpro_pilot.Base.{◌≡◌, refl, arith, none, some, [], ◌∷◌}
use fieldpro_pilot.Cipher.{Crypto, Draw, static_key_id, dev_static_key_adapter, encrypt, decipher}
use fieldpro_pilot.Cipher.Envelope.{Bytes, packed}
use fieldpro_pilot.Cipher.Laws.{IsSealing, IsDrawn, decipher-encrypt, decipher-encrypt_empty}

abbrev bytes_12 : Bytes
bytes_12 = 1 ∷ 2 ∷ 3 ∷ 4 ∷ 5 ∷ 6 ∷ 7 ∷ 8 ∷ 9 ∷ 10 ∷ 11 ∷ 12 ∷ []

abbrev bytes_16 : Bytes
bytes_16 = 1 ∷ 2 ∷ 3 ∷ 4 ∷ bytes_12

abbrev bytes_32 : Bytes
bytes_32 = 21 ∷ 22 ∷ 23 ∷ 24 ∷ 25 ∷ 26 ∷ 27 ∷ 28 ∷ 29 ∷ 30 ∷ 31 ∷ 32 ∷ 33 ∷ 34 ∷ 35 ∷ 36 ∷ bytes_16

abbrev toy : Crypto
toy = record { seal = λ key iv p. (p, bytes_16); open_sealed = λ key iv c tag. some c }

abbrev toy_draw : Draw
toy_draw = record { dek = bytes_32; wrap_iv = bytes_12; data_iv = bytes_12 }

toy-IsSealing : IsSealing toy
toy-IsSealing = record {
  opens = λ key iv p. refl;
  length_kept = λ key iv p. refl;
  tag_length = λ key iv p. refl;
}

toy_draw-IsDrawn : IsDrawn toy_draw
toy_draw-IsDrawn = record { dek_length = refl; wrap_iv_length = refl; data_iv_length = refl }

decipher_example :
    (blob : Bytes) × (encrypt toy
        (dev_static_key_adapter toy bytes_32)
        toy_draw
        (111 ∷ 105 ∷ 100 ∷ [])
      ≡ some (blob, static_key_id))
    × (decipher toy (dev_static_key_adapter toy bytes_32) blob static_key_id
        ≡ some (111 ∷ 105 ∷ 100 ∷ []))
decipher_example =
    decipher-encrypt toy toy-IsSealing bytes_32 toy_draw toy_draw-IsDrawn (111 ∷ 105 ∷ 100 ∷ [])
      (omega arith)

decipher_empty_example :
    (blob : Bytes) × (encrypt toy (dev_static_key_adapter toy bytes_32) toy_draw []
      ≡ some (blob, static_key_id))
    × (decipher toy (dev_static_key_adapter toy bytes_32) blob static_key_id ≡ none)
decipher_empty_example = decipher-encrypt_empty toy toy-IsSealing bytes_32 toy_draw toy_draw-IsDrawn

abbrev small_blob : Bytes
small_blob = packed (7 ∷ []) bytes_12 bytes_16 (9 ∷ [])
