-- ===== src/Cipher/Laws.antt =====
-- What `decrypt` makes of what `encrypt` wrote, with the adapter of a static key.
use fieldpro_pilot.Base.{
  ◌+◌, ◌*◌, ◌/◌, ◌%◌, ◌<◌, ◌≡◌, ap, ◌∙◌, true, false, none, some, [], ◌++◌, arith, length,
  length-append, append_assoc, drop, ltb, eq_text_refl,
}
use mathlib.Core.Option
use fieldpro_pilot.Cipher.{
  Crypto, static_key_id, static_wrap, static_unwrap, dev_static_key_adapter, Draw, encrypt, recover,
  decipher,
}
use fieldpro_pilot.Cipher.Envelope.{
  Bytes, pack_blob, packed, unpack_blob, unpack_parts, parts_of, take_at, drop_at,
  unpack_blob-pack_blob,
}

-- What the platform documents of the cipher: what was sealed is opened with the same key and iv, the
-- ciphertext is as long as the plaintext, and the tag has 16 bytes.
pub record IsSealing (crypto : Crypto) : Type 0 where
  pub opens :
      (key iv p : Bytes)
      → crypto.open_sealed key iv (crypto.seal key iv p).0 (crypto.seal key iv p).1 ≡ some p
  pub length_kept : (key iv p : Bytes) → length (crypto.seal key iv p).0 ≡ length p
  pub tag_length : (key iv p : Bytes) → length (crypto.seal key iv p).1 ≡ 16

-- the lengths that the code asks the random source for
pub record IsDrawn (draw : Draw) : Type 0 where
  pub dek_length : length draw.dek ≡ 32
  pub wrap_iv_length : length draw.wrap_iv ≡ 12
  pub data_iv_length : length draw.data_iv ≡ 12

module _ (crypto : Crypto) (sealing : IsSealing crypto) (kek : Bytes) where
  wrapped : Bytes → Bytes → Bytes
  wrapped iv dek = iv ++ ((crypto.seal kek iv dek).0 ++ (crypto.seal kek iv dek).1)

  length-wrapped :
      (iv dek : Bytes) → length iv ≡ 12 → length dek ≡ 32 → length (wrapped iv dek) ≡ 60
  unfolding wrapped
  length-wrapped iv dek hi hd = omega (
    arith,
    length-append iv ((crypto.seal kek iv dek).0 ++ (crypto.seal kek iv dek).1),
    length-append (crypto.seal kek iv dek).0 (crypto.seal kek iv dek).1,
    sealing.length_kept kek iv dek,
    sealing.tag_length kek iv dek,
  )

  static_unwrap-wrapped :
      (iv dek : Bytes)
      → length iv ≡ 12
      → length dek ≡ 32
      → static_unwrap crypto kek (wrapped iv dek) static_key_id ≡ some dek
  unfolding static_unwrap wrapped
  static_unwrap-wrapped iv dek hi hd =
      let enc = (crypto.seal kek iv dek).0 in
      let tag = (crypto.seal kek iv dek).1 in
      let el : length enc ≡ 32 = sealing.length_kept kek iv dek ∙ hd in
      let whole : length (iv ++ (enc ++ tag)) ≡ 60 =
        unfold wrapped in length-wrapped iv dek hi hd in
      let last : drop 44 (iv ++ (enc ++ tag)) ≡ tag =
        rw (← append_assoc iv enc tag)
          (drop_at 44 (iv ++ enc) tag (omega (arith, length-append iv enc))) in
      rw (
        eq_text_refl static_key_id,
        whole,
        take_at 12 iv (enc ++ tag) hi,
        drop_at 12 iv (enc ++ tag) hi,
        take_at 32 enc tag el,
        last,
        sealing.opens kek iv dek,
      )

  -- the blob that `encrypt` writes
  written : Draw → Bytes → Bytes
  written draw p =
      packed (wrapped draw.wrap_iv draw.dek) draw.data_iv (crypto.seal draw.dek draw.data_iv p).1
        (crypto.seal draw.dek draw.data_iv p).0

  module _ (draw : Draw) (drawn : IsDrawn draw) where
    pack_blob-written :
        (p : Bytes)
        → pack_blob
            (wrapped draw.wrap_iv draw.dek)
            draw.data_iv
            (crypto.seal draw.dek draw.data_iv p).1
            (crypto.seal draw.dek draw.data_iv p).0
          ≡ some (written draw p)
    unfolding pack_blob written
    pack_blob-written p =
        let fits : ltb 65535 (length (wrapped draw.wrap_iv draw.dek)) ≡ false =
          rw (length-wrapped draw.wrap_iv draw.dek drawn.wrap_iv_length drawn.dek_length) in
        rw fits

    encrypt-written :
        (p : Bytes)
        → encrypt crypto (dev_static_key_adapter crypto kek) draw p
          ≡ some (written draw p, static_key_id)
    unfolding encrypt dev_static_key_adapter static_wrap wrapped
    encrypt-written p = ap (Option.map (λ b. (b, static_key_id))) (pack_blob-written p)

    unpack_blob-written :
        (p : Bytes)
        → 0 < length p
        → unpack_blob (written draw p)
          ≡ some (
              parts_of
                (wrapped draw.wrap_iv draw.dek)
                draw.data_iv
                (crypto.seal draw.dek draw.data_iv p).1
                (crypto.seal draw.dek draw.data_iv p).0)
    unpack_blob-written p long =
        unpack_blob-pack_blob (wrapped draw.wrap_iv draw.dek) draw.data_iv
          (crypto.seal draw.dek draw.data_iv p).1 (crypto.seal draw.dek draw.data_iv p).0
          (written draw p) drawn.data_iv_length (sealing.tag_length draw.dek draw.data_iv p)
          (omega (arith, sealing.length_kept draw.dek draw.data_iv p)) (pack_blob-written p)

    recover-written :
        (p : Bytes)
        → recover crypto (dev_static_key_adapter crypto kek) static_key_id (
            parts_of
              (wrapped draw.wrap_iv draw.dek)
              draw.data_iv
              (crypto.seal draw.dek draw.data_iv p).1
              (crypto.seal draw.dek draw.data_iv p).0)
          ≡ some p
    unfolding recover dev_static_key_adapter
    recover-written p = rw (
      recover,
      static_unwrap-wrapped draw.wrap_iv draw.dek drawn.wrap_iv_length drawn.dek_length,
      sealing.opens draw.dek draw.data_iv p,
    )

    -- What `encrypt` writes for a plaintext that is not empty, `decrypt` recovers with the key id that was
    -- written beside it.
    pub decipher-encrypt :
        (p : Bytes)
        → 0 < length p
        → (blob : Bytes) × (encrypt crypto (dev_static_key_adapter crypto kek) draw p
            ≡ some (blob, static_key_id))
          × (decipher crypto (dev_static_key_adapter crypto kek) blob static_key_id ≡ some p)
    unfolding decipher
    decipher-encrypt p long = (
      written draw p,
      encrypt-written p,
      rw (decipher, unpack_blob-written p long) (recover-written p),
    )

    unpack_blob-written_empty : unpack_blob (written draw []) ≡ none
    unfolding unpack_blob unpack_parts written
    unpack_blob-written_empty =
        let w = wrapped draw.wrap_iv draw.dek in
        let tag = (crypto.seal draw.dek draw.data_iv []).1 in
        let ct = (crypto.seal draw.dek draw.data_iv []).0 in
        let short : ltb (length (w ++ (draw.data_iv ++ (tag ++ ct))))
              (length w / 256 * 256 + length w % 256 + 29)
            ≡ true =
          ground (
            arith,
            length-append w (draw.data_iv ++ (tag ++ ct)),
            length-append draw.data_iv (tag ++ ct),
            length-append tag ct,
            sealing.length_kept draw.dek draw.data_iv [],
            sealing.tag_length draw.dek draw.data_iv [],
            drawn.data_iv_length,
          ) in
        rw short

    -- The empty plaintext is encrypted too, but what is written for it is never decrypted: `unpackBlob`
    -- takes it for a blob that was cut off.
    pub decipher-encrypt_empty :
        (blob : Bytes) × (encrypt crypto (dev_static_key_adapter crypto kek) draw []
          ≡ some (blob, static_key_id))
        × (decipher crypto (dev_static_key_adapter crypto kek) blob static_key_id ≡ none)
    unfolding decipher
    decipher-encrypt_empty =
        (written draw [], encrypt-written [], rw (decipher, unpack_blob-written_empty))
