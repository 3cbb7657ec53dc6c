-- ===== src/Cipher/Envelope.antt =====
-- `packBlob` and `unpackBlob`, and that each undoes the other.
use fieldpro_pilot.Base.{
  ℕ, ◌+◌, ◌-◌, ◌*◌, ◌/◌, ◌%◌, ◌≤◌, ◌<◌, ◌≡◌, refl, ap, zero, suc, inl, inr, false, Option, none,
  some, List, [], ◌∷◌, ◌++◌, arith, length, length-append, take, drop, All, some_unique, subst, ltb,
  if◌then◌else◌, Bool-cases,
}

abbrev pub Bytes : Type 0
Bytes = List ℕ

pub record Blob : Type 0 where
  pub version : ℕ
  pub wrapped_dek : Bytes
  pub data_iv : Bytes
  pub data_tag : Bytes
  pub data_ciphertext : Bytes

-- the header, which holds the version and a length in two bytes, and the four parts
abbrev pub packed : Bytes → Bytes → Bytes → Bytes → Bytes
packed wrapped_dek data_iv data_tag data_ciphertext =
    1
    ∷ (length wrapped_dek / 256)
    ∷ (length wrapped_dek % 256)
    ∷ (wrapped_dek ++ (data_iv ++ (data_tag ++ data_ciphertext)))

-- none where the length does not fit its two bytes
unfoldable pub pack_blob : Bytes → Bytes → Bytes → Bytes → Option Bytes
pack_blob wrapped_dek data_iv data_tag data_ciphertext =
    if ltb 65535 (length wrapped_dek)
    then none
    else some (packed wrapped_dek data_iv data_tag data_ciphertext)

-- the four cuts behind a header that says that the first part has `n` bytes
abbrev pub cut : ℕ → ℕ → Bytes → Blob
cut version n body = record {
  version = version;
  wrapped_dek = take n body;
  data_iv = take 12 (drop n body);
  data_tag = take 16 (drop 12 (drop n body));
  data_ciphertext = drop 16 (drop 12 (drop n body));
}

unfoldable pub unpack_parts : ℕ → ℕ → Bytes → Option Blob
unpack_parts version n body = if ltb (length body) (n + 29) then none else some (cut version n body)

unfoldable pub unpack_blob : Bytes → Option Blob
unfolding unpack_parts
unpack_blob [] = none
unpack_blob (a ∷ []) = none
unpack_blob (a ∷ b ∷ []) = none
unpack_blob (version ∷ hi ∷ lo ∷ body) = unpack_parts version (hi * 256 + lo) body

module _ {ℓ} {A : Type ℓ} where
  take-append : (xs ys : List A) → take (length xs) (xs ++ ys) ≡ xs
  take-append [] ys = refl
  take-append (x ∷ xs) ys = ap (◌∷◌ x) (take-append xs ys)

  drop-append : (xs ys : List A) → drop (length xs) (xs ++ ys) ≡ ys
  drop-append [] ys = refl
  drop-append (x ∷ xs) ys = drop-append xs ys

  pub take_at : (n : ℕ) (xs ys : List A) → length xs ≡ n → take n (xs ++ ys) ≡ xs
  take_at n xs ys h = rw (← h) (take-append xs ys)

  pub drop_at : (n : ℕ) (xs ys : List A) → length xs ≡ n → drop n (xs ++ ys) ≡ ys
  drop_at n xs ys h = rw (← h) (drop-append xs ys)

  pub length-take : (n : ℕ) (xs : List A) → n ≤ length xs → length (take n xs) ≡ n
  length-take zero xs h = refl
  length-take (suc n) [] h = absurd (omega arith)
  length-take (suc n) (x ∷ xs) h = omega (arith, length-take n xs)

  pub length-drop : (n : ℕ) (xs : List A) → length (drop n xs) ≡ length xs - n
  length-drop zero xs = omega arith
  length-drop (suc n) [] = omega arith
  length-drop (suc n) (x ∷ xs) = omega (arith, length-drop n xs)

-- the length check and the four cuts on a body whose parts have the lengths that the code fixes
unpack_parts-body :
    (version n : ℕ) (w iv tag ct : Bytes)
    → length w ≡ n
    → length iv ≡ 12
    → length tag ≡ 16
    → 0 < length ct
    → unpack_parts version n (w ++ (iv ++ (tag ++ ct)))
      ≡ some (record {
        version = version;
        wrapped_dek = w;
        data_iv = iv;
        data_tag = tag;
        data_ciphertext = ct;
      })
unfolding unpack_parts
unpack_parts-body version n w iv tag ct hw hi ht hc =
    let long : ltb (length (w ++ (iv ++ (tag ++ ct)))) (n + 29) ≡ false = ground (
      arith,
      length-append w (iv ++ (tag ++ ct)),
      length-append iv (tag ++ ct),
      length-append tag ct,
    ) in
    rw (
      long,
      take_at n w (iv ++ (tag ++ ct)) hw,
      drop_at n w (iv ++ (tag ++ ct)) hw,
      take_at 12 iv (tag ++ ct) hi,
      drop_at 12 iv (tag ++ ct) hi,
      take_at 16 tag ct ht,
      drop_at 16 tag ct ht,
    )

abbrev pub parts_of : Bytes → Bytes → Bytes → Bytes → Blob
parts_of wrapped_dek data_iv data_tag data_ciphertext = record {
  version = 1;
  wrapped_dek = wrapped_dek;
  data_iv = data_iv;
  data_tag = data_tag;
  data_ciphertext = data_ciphertext;
}

-- A blob that `packBlob` builds, with an iv of 12 bytes, a tag of 16 and a ciphertext that is not
-- empty, is taken apart into the same parts, of version 1.
pub unpack_blob-pack_blob :
    (wrapped_dek data_iv data_tag data_ciphertext blob : Bytes)
    → length data_iv ≡ 12
    → length data_tag ≡ 16
    → 0 < length data_ciphertext
    → pack_blob wrapped_dek data_iv data_tag data_ciphertext ≡ some blob
    → unpack_blob blob ≡ some (parts_of wrapped_dek data_iv data_tag data_ciphertext)
unfolding pack_blob unpack_blob
unpack_blob-pack_blob wrapped_dek data_iv data_tag data_ciphertext blob hi ht hc h =
    elim (Bool-cases (ltb 65535 (length wrapped_dek))) [
      | inl e ↦ absurd (ground arith)
      | inr e ↦
          subst (λ b. unpack_blob b ≡ some (parts_of wrapped_dek data_iv data_tag data_ciphertext))
            (some_unique {a = packed wrapped_dek data_iv data_tag data_ciphertext} {b = blob} (rw e)
              h)
            (unpack_parts-body 1 _ wrapped_dek data_iv data_tag data_ciphertext (omega arith) hi ht
              hc)
    ]

abbrev pub AreBytes : Bytes → Type 0
AreBytes = All (λ b. b < 256)

-- What `unpackBlob` takes apart, and what builds it again.
abbrev pub IsUnpacked : Bytes → Blob → Type 0
IsUnpacked blob parts =
    (length parts.data_iv ≡ 12)
    × (length parts.data_tag ≡ 16)
    × (0 < length parts.data_ciphertext)
    × (pack_blob parts.wrapped_dek parts.data_iv parts.data_tag parts.data_ciphertext ≡ some blob)
