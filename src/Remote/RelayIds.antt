-- ===== src/Remote/RelayIds.antt =====
-- The ids of the relay's errors.
use un_bien.Prelude.{
  ◌≡◌, refl, ◌∙◌, subst, ℕ, zero, suc, ◌+◌, ◌≤◌, Bool, true, false, ◌&&◌, Option, some, List, [],
  ◌∷◌, ◌++◌, Text, arith, if_elim, ◌==◌, all, length, take, drop, length-drop, false≢true, ==_iff,
}
use un_bien.Envelope.{is_uuid, hex_groups, is_hex}
use un_bien.Remote.Errors.{is_lower_hex, is_legacy_relay_id, dashed, normalized_relay_id}

lower-hex : (c : ℕ) → is_lower_hex c ≡ true → is_hex c ≡ true
unfolding is_hex
lower-hex c h = ground arith

hex_group-take :
    (n : ℕ) (ns : List ℕ) (m : ℕ) (id rest : Text)
    → all is_lower_hex id ≡ true
    → n ≤ length id
    → hex_groups (n ∷ m ∷ ns) (take n id ++ (b'-' ∷ rest)) ≡ hex_groups (m ∷ ns) rest
unfolding hex_groups
hex_group-take zero ns m id rest h k = refl
hex_group-take (suc n) ns m [] rest h k = absurd (omega arith)
hex_group-take (suc n) ns m (c ∷ id) rest h k =
    ground (arith, lower-hex c, hex_group-take n ns m id rest)

hex_group-last : (id : Text) → all is_lower_hex id ≡ true → hex_groups (length id ∷ []) id ≡ true
unfolding hex_groups
hex_group-last [] h = refl
hex_group-last (c ∷ id) h = ground (arith, lower-hex c, hex_group-last id)

all-drop : (n : ℕ) (id : Text) → all is_lower_hex id ≡ true → all is_lower_hex (drop n id) ≡ true
all-drop zero id h = h
all-drop (suc n) [] h = h
all-drop (suc n) (c ∷ id) h = ground (arith, all-drop n id)

abbrev sum : List ℕ → ℕ
sum [] = 0
sum (n ∷ ns) = n + sum ns

groups-dashed :
    (ns : List ℕ) (id : Text) (last : ℕ)
    → all is_lower_hex id ≡ true
    → length id ≡ sum ns + last
    → hex_groups (ns ++ (last ∷ [])) (dashed ns id) ≡ true
groups-dashed [] id last h k =
    let e : length id ≡ last = omega arith in
    subst (λ n. hex_groups (n ∷ []) id ≡ true) e (hex_group-last id h)
groups-dashed (n ∷ []) id last h k =
    hex_group-take n [] last id (drop n id) h (omega arith)
    ∙ groups-dashed [] (drop n id) last (all-drop n id h) (omega (arith, length-drop n id))
groups-dashed (n ∷ m ∷ ns) id last h k =
    hex_group-take n (ns ++ (last ∷ [])) m id (dashed (m ∷ ns) (drop n id)) h (omega arith)
    ∙ groups-dashed (m ∷ ns) (drop n id) last (all-drop n id h) (omega (arith, length-drop n id))

both-true : (a b : Bool) → (a && b) ≡ true → (a ≡ true) × (b ≡ true)
both-true true b h = (refl, h)
both-true false b h = absurd (false≢true h)

legacy-digits :
    (id : Text) → is_legacy_relay_id id ≡ true → (length id ≡ 32) × (all is_lower_hex id ≡ true)
unfolding is_legacy_relay_id
legacy-digits id h =
    let (count, digits) = both-true (length id == 32) (all is_lower_hex id) h in
    ((==_iff (length id) 32).0 count, digits)

-- The id under which an error of the relay's goes on is a UUID, also where the relay still gives ids of 32
-- hexadecimal digits without dashes.
pub normalized_relay_id-is_uuid :
    (id normalized : Text) → normalized_relay_id id ≡ some normalized → is_uuid normalized ≡ true
unfolding normalized_relay_id is_legacy_relay_id is_uuid
normalized_relay_id-is_uuid id normalized h =
    if_elim Sound (is_legacy_relay_id id)
      (λ legacy e. subst (λ t. is_uuid t ≡ true) (injective e) (dashed-is_uuid legacy))
      (λ _.
        if_elim Sound (is_uuid id) (λ plain e. subst (λ t. is_uuid t ≡ true) (injective e) plain)
          (λ _ e. absurd (cc)))
      h
  where
    Sound : Option Text → Type 0
    Sound o = o ≡ some normalized → is_uuid normalized ≡ true

    injective : {s t : Text} → some s ≡ some t → s ≡ t
    injective e = cc

    dashed-is_uuid : is_legacy_relay_id id ≡ true → is_uuid (dashed (8 ∷ 4 ∷ 4 ∷ 4 ∷ []) id) ≡ true
    dashed-is_uuid legacy =
        let (count, digits) = legacy-digits id legacy in
        groups-dashed (8 ∷ 4 ∷ 4 ∷ 4 ∷ []) id 12 digits (omega (arith, count))
