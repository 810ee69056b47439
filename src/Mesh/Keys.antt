-- ===== src/Mesh/Keys.antt =====
-- The public keys of extension/src/mesh/encoding.ts: `decodeEd25519PublicKey` and its inverse. Base64 is
-- the platform's, a parameter. The name of the field that an error's text begins with is left out.
use un_bien.Prelude.{
  ℕ, ◌-◌, ◌%◌, Bool, ◌&&◌, ◌||◌, not, List, [], ◌∷◌, ◌++◌, map, Text, text_eq, if◌then◌else◌, leb,
  ◌==◌, all, any, length, is_empty,
}
use un_bien.Prelude.Results.{Result, ok, err, ◌>>=◌}

pub data KeyError : Type 0 where
  bad_encoding mixed_alphabets bad_padding wrong_length trailing_bits : KeyError

-- `Buffer.from(text, "base64")` and `Buffer.from(bytes).toString("base64")`.
pub record Base64 : Type 0 where
  pub to_bytes : Text → List ℕ
  pub to_text : List ℕ → Text

abbrev pub ed25519_public_key_bytes : ℕ
ed25519_public_key_bytes = 32

-- `[A-Za-z0-9]`
abbrev pub is_alphanumeric : ℕ → Bool
is_alphanumeric c = leb b'A' c && leb c b'Z' || leb b'a' c && leb c b'z' || leb b'0' c && leb c b'9'

abbrev pub is_standard_only : ℕ → Bool
is_standard_only c = c == b'+' || c == b'/'

abbrev pub is_url_safe_only : ℕ → Bool
is_url_safe_only c = c == b'-' || c == b'_'

abbrev pub is_padding : ℕ → Bool
is_padding c = c == b'='

-- What stands before the first padding character, and from it on.
unfoldable pub before_padding : Text → Text
before_padding [] = []
before_padding (c ∷ s) = if is_padding c then [] else c ∷ before_padding s

unfoldable pub from_padding : Text → Text
from_padding [] = []
from_padding (c ∷ s) = if is_padding c then c ∷ s else from_padding s

abbrev pub is_body_character : Bool → ℕ → Bool
is_body_character url_safe c =
    is_alphanumeric c || (if url_safe then is_url_safe_only c else is_standard_only c)

-- `bodyPattern.test(body)`
abbrev pub is_body : Bool → Text → Bool
is_body url_safe body = not (is_empty body) && all (is_body_character url_safe) body

-- `padding === "" || /^={1,2}$/.test(padding)`
abbrev pub is_padding_text : Text → Bool
is_padding_text padding = all is_padding padding && leb (length padding) 2

abbrev pub to_standard : ℕ → ℕ
to_standard c = if c == b'-' then b'+' else if c == b'_' then b'/' else c

abbrev pub to_url_safe : ℕ → ℕ
to_url_safe c = if c == b'+' then b'-' else if c == b'/' then b'_' else c

-- `"=".repeat(n)`, for the n below 3 that it is given.
abbrev pub padding_of : ℕ → Text
padding_of n = if n == 0 then [] else if n == 1 then b'=' ∷ [] else b'=' ∷ b'=' ∷ []

abbrev pub required_padding_length : Text → ℕ
required_padding_length body = (4 - length body % 4) % 4

-- `text.replace(/=+$/, "")`
unfoldable pub drop_padding : Text → Text
drop_padding [] = []
drop_padding (c ∷ s) =
    let rest = drop_padding s in if is_padding c && is_empty rest then [] else c ∷ rest

-- The tests on a text before it is decoded.
abbrev pub is_mixed : Text → Bool
is_mixed raw = any is_standard_only raw && any is_url_safe_only raw

abbrev pub is_malformed : Text → Bool
unfolding before_padding from_padding
is_malformed raw =
    not (is_body (any is_url_safe_only raw) (before_padding raw))
    || not (is_padding_text (from_padding raw))

abbrev pub is_badly_padded : Text → Bool
unfolding before_padding from_padding
is_badly_padded raw =
    required_padding_length (before_padding raw) == 3
    || not (is_empty (from_padding raw))
      && not (length (from_padding raw) == required_padding_length (before_padding raw))

-- Whether the text is neither of the two that the key is written as.
abbrev pub is_misspelled : Text → Text → Bool
unfolding text_eq drop_padding
is_misspelled spelled canonical =
    not (text_eq spelled canonical) && not (text_eq spelled (drop_padding canonical))

module _ (base64 : Base64) where
  unfoldable pub decode_bytes : Text → List ℕ → Result KeyError (List ℕ)
  unfolding drop_padding text_eq
  decode_bytes spelled bytes =
      if not (length bytes == ed25519_public_key_bytes)
      then err wrong_length
      else if is_misspelled spelled (base64.to_text bytes)
      then err trailing_bits
      else ok bytes

  unfoldable pub decode_body : Text → Text → Result KeyError (List ℕ)
  unfolding decode_bytes
  decode_body normalized padding =
      decode_bytes (normalized ++ padding)
        (base64.to_bytes (normalized ++ padding_of (required_padding_length normalized)))

  unfoldable pub decode_ed25519_public_key : Text → Result KeyError (List ℕ)
  unfolding decode_body before_padding from_padding
  decode_ed25519_public_key raw =
      if is_empty raw
      then err bad_encoding
      else if is_mixed raw
      then err mixed_alphabets
      else if is_malformed raw
      then err bad_encoding
      else if is_badly_padded raw
      then err bad_padding
      else decode_body (map to_standard (before_padding raw)) (from_padding raw)

  unfoldable pub encode_ed25519_public_key : List ℕ → Result KeyError Text
  encode_ed25519_public_key bytes =
      if length bytes == ed25519_public_key_bytes
      then ok (base64.to_text bytes)
      else err wrong_length

  unfoldable pub canonicalize_ed25519_public_key : Text → Result KeyError Text
  unfolding decode_ed25519_public_key encode_ed25519_public_key
  canonicalize_ed25519_public_key raw =
      decode_ed25519_public_key raw >>= λ bytes. encode_ed25519_public_key bytes

  unfoldable pub to_base64_url_no_pad : List ℕ → Text
  unfolding drop_padding
  to_base64_url_no_pad bytes = drop_padding (map to_url_safe (base64.to_text bytes))
