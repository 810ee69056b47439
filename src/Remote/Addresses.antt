-- ===== src/Remote/Addresses.antt =====
-- Labels that are put in front of a name, and taken off again.
use un_bien.Prelude.{
  ◌≡◌, refl, ap, true, false, some, [], ◌∷◌, ◌++◌, Text, arith, any, drop, length, text_starts_with,
}
use un_bien.Envelope.{non_empty}
use un_bien.Remote.Prefix.{
  with_prefix, split_colon, parse_address, strip_known_pc_prefix, if_some_text,
}
use un_bien.Remote.Topology.{is_colon}
use un_bien.Remote.Tables.{IsAlias}

split_colon-with_prefix :
    (label name : Text)
    → any is_colon label ≡ false
    → split_colon (with_prefix label name) ≡ some (label, name)
unfolding split_colon
split_colon-with_prefix [] name h = refl
split_colon-with_prefix (c ∷ label) name h = ground (arith, split_colon-with_prefix label name)

-- An alias and a name are read from the address that is made of them.
pub parse_address-with_prefix :
    (alias name : Text)
    → IsAlias alias
    → non_empty name ≡ true
    → parse_address (with_prefix alias name) ≡ some (alias, name)
unfolding parse_address
parse_address-with_prefix [] name h k = absurd (ground (arith, h.0))
parse_address-with_prefix (c ∷ alias) [] h k = absurd (ground arith)
parse_address-with_prefix (c ∷ alias) (d ∷ name) h k =
    rw (split_colon-with_prefix (c ∷ alias) (d ∷ name) h.1) refl

text_starts_with-append : (p s : Text) → text_starts_with (p ++ s) p ≡ true
unfolding text_starts_with
text_starts_with-append [] s = refl
text_starts_with-append (c ∷ p) s = ground (arith, text_starts_with-append p s)

drop-append : (p s : Text) → drop (length p) (p ++ s) ≡ s
drop-append [] s = refl
drop-append (c ∷ p) s = drop-append p s

prefix-split : (label name : Text) → with_prefix label name ≡ with_prefix label [] ++ name
prefix-split [] name = refl
prefix-split (c ∷ label) name = ap (λ t. c ∷ t) (prefix-split label name)

-- A label is taken off the name that it was put in front of, whatever colons it has.
pub strip_known_pc_prefix-with_prefix :
    (label name : Text)
    → non_empty name ≡ true
    → strip_known_pc_prefix (some (with_prefix label name)) (some label) ≡ some name
unfolding strip_known_pc_prefix
strip_known_pc_prefix-with_prefix label name h =
    rw
      (
        prefix-split label name,
        text_starts_with-append (with_prefix label []) name,
        drop-append (with_prefix label []) name,
      )
      (full name h)
  where
    full : (s : Text) → non_empty s ≡ true → if_some_text s ≡ some s
    full [] h = absurd (ground arith)
    full (c ∷ s) h = refl
