-- ===== src/Mesh/Characters.antt =====
-- The characters of aliases and of keys.
use un_bien.Prelude.{
  ◌≡◌, refl, ℕ, ◌+◌, ◌-◌, ◌/◌, ◌%◌, ◌≤◌, ◌<◌, Bool, true, false, ◌&&◌, ◌||◌, List, [], ◌∷◌, ◌++◌,
  map, Text, if_elim, leb, ltb, ltb→lt, le→leb, arith, All, all, length, is_empty,
}
use un_bien.Mesh.Keys.{is_alphanumeric, is_body_character, drop_padding, to_url_safe}
use un_bien.Mesh.Aliases.{is_routing_alias_safe_byte, hex_digit, encode_byte, encode_bytes}
use un_bien.Mesh.Prepared.{is_base_character}

pub or_first : (x y : Bool) → x ≡ true → (x || y) ≡ true
or_first x y h = rw h refl

or_second : (x y : Bool) → y ≡ true → (x || y) ≡ true
or_second true y h = refl
or_second false y h = h

alphanumeric-plain : (c : ℕ) → is_alphanumeric c ≡ true → is_base_character c ≡ true
alphanumeric-plain c h = or_first _ _ (or_first _ _ (or_first _ _ (or_first _ _ h)))

between : (a b c : ℕ) → a ≤ c → c ≤ b → (leb a c && leb c b) ≡ true
between a b c h k = rw (le→leb a c h, le→leb c b k) refl

hex_digit-plain : (n : ℕ) → n < 16 → is_base_character (hex_digit n) ≡ true
hex_digit-plain n h = alphanumeric-plain (hex_digit n) (
    if_elim (λ c. is_alphanumeric c ≡ true) (ltb n 10)
      (λ low. or_second _ _ (decimal_digit n (ltb→lt n 10 low)))
      (λ _. or_first _ _ (or_first _ _ (letter n h))))
  where
    decimal_digit : (n : ℕ) → n < 10 → (leb b'0' (b'0' + n) && leb (b'0' + n) b'9') ≡ true
    decimal_digit n h = between b'0' b'9' (b'0' + n) (omega arith) (omega (arith, h))

    letter : (n : ℕ) → n < 16 → (leb b'A' (b'A' + (n - 10)) && leb (b'A' + (n - 10)) b'Z') ≡ true
    letter n h = between b'A' b'Z' (b'A' + (n - 10)) (omega arith) (omega (arith, h))

pub all_cons :
    (p : ℕ → Bool) (c : ℕ) (s : Text) → p c ≡ true → all p s ≡ true → all p (c ∷ s) ≡ true
all_cons p c s h k = rw (h, k) refl

encode_byte-plain :
    (b : ℕ) (rest : Text)
    → b < 256
    → all is_base_character rest ≡ true
    → all is_base_character (encode_byte b rest) ≡ true
unfolding encode_byte
encode_byte-plain b rest h k =
    if_elim (λ s. all is_base_character s ≡ true) (is_routing_alias_safe_byte b)
      (λ safe. all_cons is_base_character b rest (or_first _ _ safe) k)
      λ _. all_cons is_base_character b'%' (hex_digit (b / 16) ∷ hex_digit (b % 16) ∷ rest) refl (
        all_cons is_base_character (hex_digit (b / 16)) (hex_digit (b % 16) ∷ rest)
          (hex_digit-plain (b / 16) (omega (arith, h)))
          (all_cons is_base_character (hex_digit (b % 16)) rest
            (hex_digit-plain (b % 16) (omega (arith, h))) k))

pub encode_bytes-plain :
    (bs : List ℕ) → All (λ b. b < 256) bs → all is_base_character (encode_bytes bs) ≡ true
unfolding encode_bytes
encode_bytes-plain [] a = refl
encode_bytes-plain (b ∷ bs) a =
    encode_byte-plain b (encode_bytes bs) a.0 (encode_bytes-plain bs a.1)

pub encode_bytes-full : (bs : List ℕ) → is_empty bs ≡ false → is_empty (encode_bytes bs) ≡ false
unfolding encode_bytes encode_byte
encode_bytes-full [] h = h
encode_bytes-full (b ∷ bs) h = ground arith

-- The key of 43 characters that is put into an alias.
abbrev pub url_of : Text → Text
unfolding drop_padding
url_of t = drop_padding (map to_url_safe t)

pub url-body :
    (s : Text)
    → all (is_body_character false) s ≡ true
    → url_of (s ++ (b'=' ∷ [])) ≡ map to_url_safe s
unfolding drop_padding
url-body [] h = refl
url-body (c ∷ s) h = ground (arith, url-body s)

pub url-plain :
    (s : Text)
    → all (is_body_character false) s ≡ true
    → all is_base_character (map to_url_safe s) ≡ true
url-plain [] h = refl
url-plain (c ∷ s) h = ground (arith, url-plain s)

pub length-url : (s : Text) → length (map to_url_safe s) ≡ length s
length-url [] = refl
length-url (c ∷ s) = omega (arith, length-url s)

pub url-injective :
    (s t : Text)
    → all (is_body_character false) s ≡ true
    → all (is_body_character false) t ≡ true
    → map to_url_safe s ≡ map to_url_safe t
    → s ≡ t
url-injective [] [] h k e = refl
url-injective [] (d ∷ t) h k e = absurd (cc)
url-injective (c ∷ s) [] h k e = absurd (cc)
url-injective (c ∷ s) (d ∷ t) h k e = ground (
  arith,
  same_character c d (ground arith) (ground arith) (cc),
  url-injective s t (ground arith) (ground arith) (cc),
)
  where
    same_character :
        (c d : ℕ)
        → is_body_character false c ≡ true
        → is_body_character false d ≡ true
        → to_url_safe c ≡ to_url_safe d
        → c ≡ d
    same_character c d h k e = ground arith
