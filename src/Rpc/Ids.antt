-- ===== src/Rpc/Ids.antt =====
-- An entry that is fit for transport is still the entry with its id.
use un_bien.Prelude.{
  ◌≡◌, refl, sym, ◌∙◌, ap, subst, ℕ, ◌≤◌, Option, none, some, Text, text_eq, arith, if◌then◌else◌,
  if_elim, codes, leb, option_else, length,
}
use un_bien.Json.{
  Value, Fields, null, bool, num, str, arr, obj, end, field, member, get_field, as_text,
}
use un_bien.Rpc.Fitting.{
  PortEntry, entry_id, truncate_text, truncate_strings_deep, truncate_fields, elided, fit_within,
  fit_entry_for_transport, max_entry_json_bytes,
}

map_value : (Value → Value) → Option Value → Option Value
map_value f none = none
map_value f (some v) = some (f v)

get_field-truncate :
    (cap : ℕ) (fs : Fields) (k : Text)
    → get_field (truncate_fields cap fs) k ≡ map_value (truncate_strings_deep cap) (get_field fs k)
unfolding get_field truncate_strings_deep map_value
get_field-truncate cap end k = refl
get_field-truncate cap (field j v fs) k = ground (arith, get_field-truncate cap fs k)

truncate_text_short : (cap : ℕ) (s : Text) → length s ≤ cap → truncate_text cap s ≡ s
unfolding truncate_text
truncate_text_short cap s h = ground arith

as_text-truncate :
    (cap : ℕ) (o : Option Value) (i : Text)
    → as_text o ≡ some i
    → length i ≤ cap
    → as_text (map_value (truncate_strings_deep cap) o) ≡ some i
unfolding as_text map_value truncate_strings_deep
as_text-truncate cap (some (str s)) i h k =
    ap some
      (truncate_text_short cap s (subst (λ t. length t ≤ cap) (sym (injective h)) k) ∙ injective h)
  where
    injective : some s ≡ some i → s ≡ i
    injective e = cc
as_text-truncate cap none i h k = absurd (cc)
as_text-truncate cap (some null) i h k = absurd (cc)
as_text-truncate cap (some (bool b)) i h k = absurd (cc)
as_text-truncate cap (some (num n)) i h k = absurd (cc)
as_text-truncate cap (some (arr xs)) i h k = absurd (cc)
as_text-truncate cap (some (obj fs)) i h k = absurd (cc)

entry_id-truncate :
    (cap : ℕ) (e : PortEntry) (i : Text)
    → entry_id e ≡ some i
    → length i ≤ cap
    → entry_id (truncate_strings_deep cap e) ≡ some i
unfolding entry_id member truncate_strings_deep
entry_id-truncate cap (obj fs) i h k =
    ap as_text (get_field-truncate cap fs (codes "id"))
    ∙ as_text-truncate cap (get_field fs (codes "id")) i h k
entry_id-truncate cap (str s) i h k = absurd (cc)
entry_id-truncate cap (null) i h k = absurd (cc)
entry_id-truncate cap (bool b) i h k = absurd (cc)
entry_id-truncate cap (num n) i h k = absurd (cc)
entry_id-truncate cap (arr xs) i h k = absurd (cc)

as_text-id :
    (o : Option Text) (i : Text) → o ≡ some i → as_text (some (option_else o null str)) ≡ some i
unfolding as_text
as_text-id o i h = rw h refl

entry_id-elided : (e : PortEntry) (i : Text) → entry_id e ≡ some i → entry_id (elided e) ≡ some i
unfolding elided entry_id member get_field text_eq as_text
entry_id-elided e i h = as_text-id (entry_id e) i h

-- An id of at most 256 code units is the id that the entry goes by on the wire, however much of the entry is
-- cut off.
pub entry_id-fit :
    (size : Value → ℕ) (e : PortEntry) (i : Text)
    → entry_id e ≡ some i
    → length i ≤ 256
    → entry_id (fit_entry_for_transport size e) ≡ some i
unfolding fit_entry_for_transport fit_within
entry_id-fit size e i h k =
    if_elim Same (leb (size e) max_entry_json_bytes) (λ _. h)
      λ _.
        capped 65536 (omega (arith, k)) _
          (capped 8192 (omega (arith, k)) _ (capped 256 k _ (entry_id-elided e i h)))
  where
    Same : PortEntry → Type 0
    Same f = entry_id f ≡ some i

    capped :
        (n : ℕ)
        → length i ≤ n
        → (otherwise : PortEntry) → Same otherwise
        → Same (
            if leb (size (truncate_strings_deep n e)) max_entry_json_bytes
            then truncate_strings_deep n e
            else otherwise)
    capped n short otherwise rest =
        if_elim Same (leb (size (truncate_strings_deep n e)) max_entry_json_bytes)
          (λ _. entry_id-truncate n e i h short) (λ _. rest)
