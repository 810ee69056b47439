-- ===== src/Rpc/Fitting.antt =====
-- Entries that are fit for transport: `truncateStringsDeep` and `fitEntryForTransport`. What
-- `JSON.stringify(value).length` is is a parameter.
use un_bien.Prelude.{
  ℕ, ◌-◌, Option, List, [], ◌∷◌, ◌++◌, Text, if◌then◌else◌, codes, leb, ltb, option_else, length,
  take, decimal,
}
use un_bien.Json.{
  Value, Items, Fields, null, bool, num, str, arr, obj, nil, cons, end, field, member, as_text,
}

-- `PortEntry`: an object with an id.
abbrev pub PortEntry : Type 0
PortEntry = Value

unfoldable pub entry_id : PortEntry → Option Text
unfolding member as_text
entry_id entry = as_text (member entry (codes "id"))

abbrev pub max_entry_json_bytes : ℕ
max_entry_json_bytes = 5242880

-- Of the code unit U+2026 and the counts.
unfoldable pub truncation_marker : ℕ → ℕ → Text
unfolding decimal
truncation_marker cut total =
    0x2026 ∷ codes "[transport-truncated "
    ++ decimal (total - cut)
    ++ codes "/"
    ++ decimal total
    ++ codes " bytes]"

unfoldable pub truncate_text : ℕ → Text → Text
unfolding truncation_marker
truncate_text cap s =
    if ltb cap (length s) then take cap s ++ truncation_marker cap (length s) else s

unfoldable mutual
  unfolding truncate_text

  pub truncate_strings_deep : ℕ → Value → Value
  truncate_strings_deep cap (str s) = str (truncate_text cap s)
  truncate_strings_deep cap (arr items) = arr (truncate_items cap items)
  truncate_strings_deep cap (obj fields) = obj (truncate_fields cap fields)
  truncate_strings_deep cap (null) = null
  truncate_strings_deep cap (bool b) = bool b
  truncate_strings_deep cap (num n) = num n

  pub truncate_items : ℕ → Items → Items
  truncate_items cap nil = nil
  truncate_items cap (cons v rest) = cons (truncate_strings_deep cap v) (truncate_items cap rest)

  pub truncate_fields : ℕ → Fields → Fields
  truncate_fields cap end = end
  truncate_fields cap (field k v rest) =
      field k (truncate_strings_deep cap v) (truncate_fields cap rest)

abbrev id_value : PortEntry → Value
id_value entry = option_else (entry_id entry) null str

abbrev id_text : PortEntry → Text
id_text entry = option_else (entry_id entry) [] (λ i. i)

-- The stub of an entry that no truncation makes small enough.
unfoldable pub elided : PortEntry → PortEntry
unfolding entry_id member
elided entry = obj (
    field (codes "type") (str (codes "message")) (
      field (codes "id") (id_value entry) (
        field (codes "parentId") (option_else (member entry (codes "parentId")) null (λ v. v))
          (field (codes "message") message end))))
  where
    note : Text
    note =
        codes "[entry "
        ++ id_text entry
        ++ codes " exceeds the transport ceiling "
        ++ (0x2014 ∷ codes " content elided]")

    message : Value
    message = obj (
        field (codes "role") (str (codes "assistant")) (
          field (codes "content")
            (arr (
              cons
                (obj
                  (field (codes "type") (str (codes "text")) (field (codes "text") (str note) end)))
                nil))
            end))

abbrev pub caps : List ℕ
caps = 65536 ∷ 8192 ∷ 256 ∷ []

module _ (size : Value → ℕ) where
  -- The first truncation that is small enough.
  unfoldable pub fit_within : List ℕ → PortEntry → PortEntry
  unfolding elided truncate_strings_deep
  fit_within [] entry = elided entry
  fit_within (cap ∷ rest) entry =
      let otherwise = fit_within rest entry in
      if leb (size (truncate_strings_deep cap entry)) max_entry_json_bytes
      then truncate_strings_deep cap entry
      else otherwise

  unfoldable pub fit_entry_for_transport : PortEntry → PortEntry
  unfolding fit_within
  fit_entry_for_transport entry =
      if leb (size entry) max_entry_json_bytes then entry else fit_within caps entry
