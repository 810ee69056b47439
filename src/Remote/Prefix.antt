-- ===== src/Remote/Prefix.antt =====
-- Addresses with the label of a machine in front: `parseAddress` and the removal of prefixes.
use un_bien.Prelude.{
  Option, none, some, [], ◌∷◌, ◌++◌, Text, if◌then◌else◌, ◌==◌, option_else, length, drop,
  text_starts_with,
}

-- `${label}:${name}`
abbrev pub with_prefix : Text → Text → Text
with_prefix label name = label ++ (b':' ∷ name)

-- The texts before and after the first colon, if there is one.
unfoldable pub split_colon : Text → Option (Text × Text)
split_colon [] = none
split_colon (c ∷ s) =
    let rest = split_colon s in
    if c == b':' then some ([], s) else option_else rest none (λ p. some (c ∷ p.0, p.1))

abbrev pub both_parts : Text × Text → Option (Text × Text)
both_parts ([], name) = none
both_parts (c ∷ label, []) = none
both_parts (c ∷ label, d ∷ name) = some (c ∷ label, d ∷ name)

-- The label and the name, neither of which is empty.
unfoldable pub parse_address : Text → Option (Text × Text)
unfolding split_colon
parse_address to = option_else (split_colon to) none both_parts

unfoldable pub strip_required_pc_prefix : Text → Option Text
unfolding parse_address
strip_required_pc_prefix value = option_else (parse_address value) none (λ p. some p.1)

abbrev pub if_some_text : Text → Option Text
if_some_text [] = none
if_some_text (c ∷ s) = some (c ∷ s)

abbrev strip_exact : Text → Text → Option Text
strip_exact value prefix = if_some_text (drop (length prefix) value)

-- Of a value that is a string, the legacy label is dropped if it stands in front, or else what
-- stands before the first colon.
unfoldable pub strip_known_pc_prefix : Option Text → Option Text → Option Text
unfolding strip_required_pc_prefix text_starts_with
strip_known_pc_prefix none label = none
strip_known_pc_prefix (some value) none = strip_required_pc_prefix value
strip_known_pc_prefix (some value) (some label) =
    if text_starts_with value (with_prefix label [])
    then strip_exact value (with_prefix label [])
    else strip_required_pc_prefix value
