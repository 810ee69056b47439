-- ===== src/Mesh/Canonical.antt =====
-- The canonical spelling of a key. What is relied on of Base64 is what it does with 32 bytes.
use un_bien.Prelude.{
  ◌≡◌, refl, sym, ap, subst, ◌∙◌, inl, inr, ℕ, ◌<◌, Bool, true, false, ◌&&◌, ◌||◌, not, List, [],
  ◌∷◌, ◌++◌, map, Text, text_eq, text_eq_refl, eq_of_text_eq, ◌==◌, ==_iff, arith, All, all, any,
  length, is_empty, Bool-cases,
}
use un_bien.Prelude.Results.{Result, ok, if-eq-ok, >>=-eq-ok}
use un_bien.Mesh.Keys.{
  Base64, KeyError, is_standard_only, is_url_safe_only, is_padding, before_padding, from_padding,
  is_body_character, is_body, to_standard, required_padding_length, drop_padding, is_mixed,
  is_malformed, is_badly_padded, is_misspelled, decode_bytes, decode_body, bad_encoding,
  mixed_alphabets, bad_padding, wrong_length, trailing_bits, decode_ed25519_public_key,
  encode_ed25519_public_key, canonicalize_ed25519_public_key,
}

abbrev pub IsKey : List ℕ → Type 0
IsKey bytes = (length bytes ≡ 32) × All (λ b. b < 256) bytes

-- The text of a key: 43 characters of the standard alphabet and one for padding.
pub record IsKeyText (t : Text) : Type 0 where
  pub body : Text
  pub padded : t ≡ body ++ (b'=' ∷ [])
  pub body_length : length body ≡ 43
  pub standard : all (is_body_character false) body ≡ true

pub record IsBase64 (base64 : Base64) : Type 0 where
  pub text : (bytes : List ℕ) → IsKey bytes → IsKeyText (base64.to_text bytes)
  pub back : (bytes : List ℕ) → IsKey bytes → base64.to_bytes (base64.to_text bytes) ≡ bytes
  pub are_bytes : (t : Text) → All (λ b. b < 256) (base64.to_bytes t)

-- What the functions of a key's text make of its body.
no_url_safe :
    (s : Text)
    → all (is_body_character false) s ≡ true
    → any is_url_safe_only (s ++ (b'=' ∷ [])) ≡ false
no_url_safe [] h = refl
no_url_safe (c ∷ s) h = ground (arith, no_url_safe s)

before_padding-body :
    (s : Text) → all (is_body_character false) s ≡ true → before_padding (s ++ (b'=' ∷ [])) ≡ s
unfolding before_padding
before_padding-body [] h = refl
before_padding-body (c ∷ s) h = ground (arith, before_padding-body s)

from_padding-body :
    (s : Text)
    → all (is_body_character false) s ≡ true
    → from_padding (s ++ (b'=' ∷ [])) ≡ b'=' ∷ []
unfolding from_padding
from_padding-body [] h = refl
from_padding-body (c ∷ s) h = ground (arith, from_padding-body s)

to_standard-body : (s : Text) → all (is_body_character false) s ≡ true → map to_standard s ≡ s
to_standard-body [] h = refl
to_standard-body (c ∷ s) h = ground (arith, to_standard-body s)

pub is_empty-padded : (s : Text) → is_empty (s ++ (b'=' ∷ [])) ≡ false
is_empty-padded [] = refl
is_empty-padded (c ∷ s) = refl

is_body-body :
    (s : Text) → length s ≡ 43 → all (is_body_character false) s ≡ true → is_body false s ≡ true
is_body-body [] l h = absurd (omega (arith, l))
is_body-body (c ∷ s) l h = h

required-43 : (s : Text) → length s ≡ 43 → required_padding_length s ≡ 1
required-43 s l = rw l refl

pub at_end : (b : Bool) → (b && false) ≡ false
at_end true = refl
at_end false = refl

module _ (base64 : Base64) where
  -- A text that is 43 characters of the standard alphabet with one for padding, and is what its bytes
  -- are written as.
  decode_written :
      (body bytes : List ℕ)
      → length body ≡ 43
      → all (is_body_character false) body ≡ true
      → base64.to_bytes (body ++ (b'=' ∷ [])) ≡ bytes
      → base64.to_text bytes ≡ body ++ (b'=' ∷ [])
      → length bytes ≡ 32
      → decode_ed25519_public_key base64 (body ++ (b'=' ∷ [])) ≡ ok bytes
  unfolding decode_ed25519_public_key decode_body
  decode_written body bytes l h back text size =
      rw
        (
          is_empty-padded body,
          no_url_safe body h,
          at_end (any is_standard_only (body ++ (b'=' ∷ []))),
          before_padding-body body h,
          from_padding-body body h,
          is_body-body body l h,
          required-43 body l,
          to_standard-body body h,
          required-43 body l,
          back,
          size,
          text,
          text_eq_refl (body ++ (b'=' ∷ [])),
        )
        refl

module _ (base64 : Base64) where
  pub encode-key :
      (bytes : List ℕ)
      → length bytes ≡ 32
      → encode_ed25519_public_key base64 bytes ≡ ok (base64.to_text bytes)
  unfolding encode_ed25519_public_key
  encode-key bytes size = rw size refl

well_formed : (a b c : Bool) → (a || not (b && c)) ≡ false → b ≡ true
well_formed a b c h = ground arith

drop_padding_idem : (s : Text) → drop_padding (drop_padding s) ≡ drop_padding s
unfolding drop_padding
drop_padding_idem [] = refl
drop_padding_idem (c ∷ s) = ground (arith, drop_padding_idem s)

to_standard-padding : (s : Text) → all is_padding s ≡ true → map to_standard s ≡ s
to_standard-padding [] h = refl
to_standard-padding (c ∷ s) h = ground (arith, to_standard-padding s)

-- A text whose padding is at its end is its body, in the standard alphabet, and its padding.
to_standard-parts :
    (s : Text)
    → all is_padding (from_padding s) ≡ true
    → map to_standard s ≡ map to_standard (before_padding s) ++ from_padding s
unfolding before_padding from_padding
to_standard-parts [] h = refl
to_standard-parts (c ∷ s) h = elim (Bool-cases (is_padding c)) [
  | inl pad ↦ rw pad (to_standard-padding (c ∷ s) (ground arith))
  | inr other ↦ rw other (ap (λ t. to_standard c ∷ t) (to_standard-parts s (ground arith)))
]

module _ (base64 : Base64) (laws : IsBase64 base64) where
  pub decode-key :
      (bytes : List ℕ)
      → IsKey bytes
      → decode_ed25519_public_key base64 (base64.to_text bytes) ≡ ok bytes
  decode-key bytes k =
      let w = laws.text bytes k in
      subst (λ t. decode_ed25519_public_key base64 t ≡ ok bytes) (sym w.padded)
        (decode_written base64 w.body bytes w.body_length w.standard
          (ap base64.to_bytes (sym w.padded) ∙ laws.back bytes k) w.padded k.0)

  -- A spelling of the key with these bytes, up to the alphabet and the padding.
  abbrev pub Spells : Text → List ℕ → Type 0
  Spells standard bytes =
      IsKey bytes × (drop_padding standard ≡ drop_padding (base64.to_text bytes))

  decode_bytes-Spells :
      (spelled : Text) (read bytes : List ℕ)
      → All (λ b. b < 256) read
      → decode_bytes base64 spelled read ≡ ok bytes
      → Spells spelled bytes
  unfolding decode_bytes
  decode_bytes-Spells spelled read bytes small h =
      let (size, rest) = if-eq-ok (not (length read == 32)) wrong_length _ bytes h in
      let (same, here) =
        if-eq-ok (is_misspelled spelled (base64.to_text read)) trailing_bits _ bytes rest in
      subst (Spells spelled) (ok_injective here)
        (((sized size), small), one_of (base64.to_text read) same)
    where
      ok_injective : ◌≡◌ {A = Result KeyError (List ℕ)} (ok read) (ok bytes) → read ≡ bytes
      ok_injective e = cc

      sized : not (length read == 32) ≡ false → length read ≡ 32
      sized e = ground arith

      one_of : (t : Text) → is_misspelled spelled t ≡ false → drop_padding spelled ≡ drop_padding t
      one_of t e = elim (Bool-cases (text_eq spelled t)) [
        | inl whole ↦ ap drop_padding (eq_of_text_eq spelled t whole)
        | inr other ↦
            ap drop_padding (eq_of_text_eq spelled (drop_padding t) (ground arith))
            ∙ drop_padding_idem t
      ]

  pub decode-Spells :
      (raw : Text) (bytes : List ℕ)
      → decode_ed25519_public_key base64 raw ≡ ok bytes
      → Spells (map to_standard raw) bytes
  unfolding decode_ed25519_public_key
  decode-Spells raw bytes h =
      let (_, h1) = if-eq-ok (is_empty raw) bad_encoding _ bytes h in
      let (_, h2) = if-eq-ok (is_mixed raw) mixed_alphabets _ bytes h1 in
      let (formed, h3) = if-eq-ok (is_malformed raw) bad_encoding _ bytes h2 in
      let (_, h4) = if-eq-ok (is_badly_padded raw) bad_padding _ bytes h3 in
      subst (λ t. Spells t bytes) (sym (to_standard-parts raw (well_formed _ _ _ formed)))
        (decode_bytes-Spells _ _ bytes (laws.are_bytes _) h4)

  pub canonicalize-bytes :
      (raw k : Text)
      → canonicalize_ed25519_public_key base64 raw ≡ ok k
      → (bytes : List ℕ) × Spells (map to_standard raw) bytes
        × (k ≡ base64.to_text bytes)
        × (decode_ed25519_public_key base64 raw ≡ ok bytes)
  unfolding canonicalize_ed25519_public_key encode_ed25519_public_key
  canonicalize-bytes raw k h =
      let (bytes, decoded, encoded) =
        >>=-eq-ok (decode_ed25519_public_key base64 raw) (encode_ed25519_public_key base64) k h in
      let spells = decode-Spells raw bytes decoded in
      (bytes, spells, text_of bytes spells.0.0 encoded, decoded)
    where
      text_of :
          (bytes : List ℕ)
          → length bytes ≡ 32
          → encode_ed25519_public_key base64 bytes ≡ ok k
          → k ≡ base64.to_text bytes
      text_of bytes size e = ground (arith, ==_iff (length bytes) 32)

  -- Where Base64 reads back the 43 characters and one of padding that it writes 32 bytes as: if a key can
  -- be read, its canonical spelling is its own, is such a text, and differs from the spelling that was
  -- read at most by the alphabet and the padding.
  pub canonicalize_idem :
      (raw k : Text)
      → canonicalize_ed25519_public_key base64 raw ≡ ok k
      → (canonicalize_ed25519_public_key base64 k ≡ ok k)
        × IsKeyText k
        × (drop_padding (map to_standard raw) ≡ drop_padding k)
  unfolding canonicalize_ed25519_public_key encode_ed25519_public_key
  canonicalize_idem raw k h =
      let (bytes, spells, same, _) = canonicalize-bytes raw k h in
      (
        subst (λ t. canonicalize_ed25519_public_key base64 t ≡ ok t) (sym same)
            (rw (decode-key bytes spells.0, spells.0.0) refl),
        subst IsKeyText (sym same) (laws.text bytes spells.0),
        spells.1 ∙ ap drop_padding (sym same),
      )
