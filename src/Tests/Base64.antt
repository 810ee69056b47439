-- ===== src/Tests/Base64.antt =====
-- Base64 of bytes, as RFC 4648 has it, with which the theorems about keys are applied; and that it does
-- what they rely on.
use un_bien.Prelude.{
  inl, inr, ap, ◌∙◌, ◌≡◌, refl, ap, ℕ, zero, suc, ◌+◌, ◌-◌, ◌*◌, ◌/◌, ◌%◌, ◌<◌, Bool, true, false,
  ◌&&◌, not, List, [], ◌∷◌, ◌++◌, Text, if◌then◌else◌, if_elim, ltb, leb, ◌==◌, ==_iff, arith, All,
  all, length, number_cases,
}
use un_bien.Mesh.Keys.{Base64, is_body_character}
use un_bien.Mesh.Canonical.{IsBase64}

character : ℕ → ℕ
character n =
    if ltb n 26
    then b'A' + n
    else if ltb n 52
    then b'a' + (n - 26)
    else if ltb n 62
    then b'0' + (n - 52)
    else if n == 62
    then b'+'
    else b'/'

value : ℕ → ℕ
value c =
    if leb b'A' c && leb c b'Z'
    then c - b'A'
    else if leb b'a' c && leb c b'z'
    then c - b'a' + 26
    else if leb b'0' c && leb c b'9'
    then c - b'0' + 52
    else if c == b'+'
    then 62
    else 63

to_text : List ℕ → Text
unfolding character
to_text [] = []
to_text (a ∷ []) = character (a / 4) ∷ character (a % 4 * 16) ∷ b'=' ∷ b'=' ∷ []
to_text (a ∷ b ∷ []) =
    character (a / 4) ∷ character (a % 4 * 16 + b / 16) ∷ character (b % 16 * 4) ∷ b'=' ∷ []
to_text (a ∷ b ∷ c ∷ rest) =
    character (a / 4)
    ∷ character (a % 4 * 16 + b / 16)
    ∷ character (b % 16 * 4 + c / 64)
    ∷ character (c % 64)
    ∷ to_text rest

abbrev first_byte : ℕ → ℕ → ℕ
unfolding value
first_byte c d = (value c * 4 + value d / 16) % 256

abbrev second_byte : ℕ → ℕ → ℕ
unfolding value
second_byte d e = (value d % 16 * 16 + value e / 4) % 256

abbrev third_byte : ℕ → ℕ → ℕ
unfolding value
third_byte e f = (value e % 4 * 64 + value f) % 256

to_bytes : Text → List ℕ
unfolding value
to_bytes (c ∷ d ∷ e ∷ f ∷ rest) =
    let more = to_bytes rest in
    if e == b'='
    then first_byte c d ∷ []
    else if f == b'='
    then first_byte c d ∷ second_byte d e ∷ []
    else first_byte c d ∷ second_byte d e ∷ third_byte e f ∷ more
to_bytes _ = []

-- The numbers of six bits and fewer, whose rows of the table are checked by evaluation.
six_bit_numbers : ℕ → List ℕ
six_bit_numbers zero = []
six_bit_numbers (suc last) = last ∷ six_bit_numbers last

row-of_table :
    (row : ℕ → Bool) (count n : ℕ)
    → n < count
    → all row (six_bit_numbers count) ≡ true
    → row n ≡ true
unfolding six_bit_numbers
row-of_table row zero n below checked = absurd (omega (arith, below))
row-of_table row (suc last) n below checked = elim (number_cases n last) [
  | inl same ↦ ap row same ∙ both_first (row last) (all row (six_bit_numbers last)) checked
  | inr other ↦
      row-of_table row last n (ground (arith))
        (both_second (row last) (all row (six_bit_numbers last)) checked)
]
  where
    both_first : (x y : Bool) → (x && y) ≡ true → x ≡ true
    both_first x y e = ground arith

    both_second : (x y : Bool) → (x && y) ≡ true → y ≡ true
    both_second x y e = ground arith

abbrev character_row : ℕ → Bool
unfolding value character
character_row n =
    value (character n) == n && is_body_character false (character n) && not (character n == b'=')

character_table : all character_row (six_bit_numbers 64) ≡ true
unfolding six_bit_numbers character value
character_table = refl

record IsSixBits (n : ℕ) : Type 0 where
  back : value (character n) ≡ n
  standard : is_body_character false (character n) ≡ true
  no_padding : (character n == b'=') ≡ false

six_bits : (n : ℕ) → n < 64 → IsSixBits n
unfolding value character
six_bits n h = of_row (row-of_table character_row 64 n h character_table)
  where
    three : (x y z : Bool) → (x && y && not z) ≡ true → (x ≡ true) × (y ≡ true) × (z ≡ false)
    three x y z e = ground arith

    of_row : character_row n ≡ true → IsSixBits n
    of_row e =
        let (x, y, z) =
          three (value (character n) == n) (is_body_character false (character n))
            (character n == b'=') e in
        record { back = (==_iff (value (character n)) n).0 x; standard = y; no_padding = z }

two_first : (a b : ℕ) → a < 256 → b < 256 → (a / 4 * 4 + (a % 4 * 16 + b / 16) / 16) % 256 ≡ a
two_first a b h k = omega arith

two_second :
    (a b : ℕ) → a < 256 → b < 256 → ((a % 4 * 16 + b / 16) % 16 * 16 + b % 16 * 4 / 4) % 256 ≡ b
two_second a b h k = omega arith

three_second :
    (a b c : ℕ)
    → a < 256
    → b < 256
    → c < 256
    → ((a % 4 * 16 + b / 16) % 16 * 16 + (b % 16 * 4 + c / 64) / 4) % 256 ≡ b
three_second a b c h k l = omega arith

three_third : (b c : ℕ) → c < 256 → ((b % 16 * 4 + c / 64) % 4 * 64 + c % 64) % 256 ≡ c
three_third b c l = omega arith

to_bytes-to_text : (bytes : List ℕ) → All (λ b. b < 256) bytes → to_bytes (to_text bytes) ≡ bytes
unfolding to_bytes to_text
to_bytes-to_text [] a = refl
to_bytes-to_text (a ∷ []) h =
    let r = six_bits (a / 4) (omega (arith, h.0)) in
    let s = six_bits (a % 4 * 16) (omega (arith, h.0)) in
    rw (r.back, s.back) (ap (λ x. x ∷ []) (omega (arith, h.0)))
to_bytes-to_text (a ∷ b ∷ []) h =
    let r = six_bits (a / 4) (omega (arith, h.0)) in
    let s = six_bits (a % 4 * 16 + b / 16) (omega (arith, h.0, h.1.0)) in
    let t = six_bits (b % 16 * 4) (omega arith) in
    rw (t.no_padding, r.back, s.back, t.back)
      (cc (two_first a b h.0 h.1.0, two_second a b h.0 h.1.0))
to_bytes-to_text (a ∷ b ∷ c ∷ rest) h =
    let r = six_bits (a / 4) (omega (arith, h.0)) in
    let s = six_bits (a % 4 * 16 + b / 16) (omega (arith, h.0, h.1.0)) in
    let t = six_bits (b % 16 * 4 + c / 64) (omega (arith, h.1.1.0)) in
    let u = six_bits (c % 64) (omega arith) in
    rw (t.no_padding, u.no_padding, r.back, s.back, t.back, u.back, to_bytes-to_text rest h.1.1.1)
      (cc (two_first a b h.0 h.1.0, three_second a b c h.0 h.1.0 h.1.1.0, three_third b c h.1.1.0))

-- The text of as many bytes as two more than a multiple of three.
to_text-IsKeyText :
    (n : ℕ) (bytes : List ℕ)
    → length bytes ≡ 3 * n + 2
    → All (λ b. b < 256) bytes
    → (body : Text) × (to_text bytes ≡ body ++ (b'=' ∷ []))
      × (length body ≡ 4 * n + 3)
      × (all (is_body_character false) body ≡ true)
unfolding to_text
to_text-IsKeyText n [] l h = absurd (omega (arith, l))
to_text-IsKeyText n (a ∷ []) l h = absurd (omega (arith, l))
to_text-IsKeyText zero (a ∷ b ∷ []) l h =
    let r = six_bits (a / 4) (omega (arith, h.0)) in
    let s = six_bits (a % 4 * 16 + b / 16) (omega (arith, h.0, h.1.0)) in
    let t = six_bits (b % 16 * 4) (omega arith) in
    (
      character (a / 4) ∷ character (a % 4 * 16 + b / 16) ∷ character (b % 16 * 4) ∷ [],
      refl,
      omega arith,
      rw (r.standard, s.standard, t.standard) refl,
    )
to_text-IsKeyText (suc n) (a ∷ b ∷ []) l h = absurd (omega (arith, l))
to_text-IsKeyText zero (a ∷ b ∷ c ∷ rest) l h = absurd (omega (arith, l))
to_text-IsKeyText (suc n) (a ∷ b ∷ c ∷ rest) l h =
    let r = six_bits (a / 4) (omega (arith, h.0)) in
    let s = six_bits (a % 4 * 16 + b / 16) (omega (arith, h.0, h.1.0)) in
    let t = six_bits (b % 16 * 4 + c / 64) (omega (arith, h.1.1.0)) in
    let u = six_bits (c % 64) (omega arith) in
    let (body, whole, size, standard) = to_text-IsKeyText n rest (omega (arith, l)) h.1.1.1 in
    (
      character (a / 4)
          ∷ character (a % 4 * 16 + b / 16)
          ∷ character (b % 16 * 4 + c / 64)
          ∷ character (c % 64)
          ∷ body,
      rw whole refl,
      omega (arith, size),
      rw (r.standard, s.standard, t.standard, u.standard, standard) refl,
    )

to_bytes-All : (t : Text) → All (λ b. b < 256) (to_bytes t)
unfolding to_bytes
to_bytes-All [] = tt
to_bytes-All (c ∷ []) = tt
to_bytes-All (c ∷ d ∷ []) = tt
to_bytes-All (c ∷ d ∷ e ∷ []) = tt
to_bytes-All (c ∷ d ∷ e ∷ f ∷ rest) =
    if_elim (All (λ b. b < 256)) (e == b'=') (λ _. (omega arith, tt))
      λ _.
        if_elim (All (λ b. b < 256)) (f == b'=') (λ _. (omega arith, (omega arith, tt)))
          λ _. (omega arith, (omega arith, (omega arith, to_bytes-All rest)))

unfoldable pub to_bytes_of : Text → List ℕ
unfolding to_bytes
to_bytes_of t = to_bytes t

unfoldable pub to_text_of : List ℕ → Text
unfolding to_text
to_text_of bytes = to_text bytes

abbrev pub base64 : Base64
base64 = record { to_bytes = to_bytes_of; to_text = to_text_of }

pub base64-IsBase64 : IsBase64 base64
unfolding to_bytes_of to_text_of
base64-IsBase64 = record {
  text = λ bytes k.
      let (body, whole, size, standard) = to_text-IsKeyText 10 bytes (omega (arith, k.0)) k.1 in
      record {
        body = body;
        padded = whole;
        body_length = omega (arith, size);
        standard = standard;
      };
  back = λ bytes k. to_bytes-to_text bytes k.1;
  are_bytes = to_bytes-All;
}
