-- ===== src/Mesh/Labelling.antt =====
-- The labels of a topology: full, and apart where aliases are.
use un_bien.Prelude.{
  ◌≡◌, refl, sym, ap, subst, inl, inr, true, false, Option, none, some, List, [], ◌∷◌, map, Text,
  text_eq, text_eq_iff, if_elim, arith, All, contains, take, is_empty, is_some, sort_by, truthy,
  option_else, Bool-cases,
}
use un_bien.Prelude.Dict
use un_bien.Prelude.Dict.{Dict}
use un_bien.Prelude.Results.{to_option}
use un_bien.Mesh.Keys.{Base64, canonicalize_ed25519_public_key}
use un_bien.Mesh.Canonical.{IsKeyText, is_empty-padded}
use un_bien.Mesh.Unique.{Unique, sort-Unique}
use un_bien.Mesh.Inputs.{map-id}

-- `canonicalizeEd25519PublicKey` as the router is given it: nothing where it throws.
abbrev pub canonical_by : Base64 → Text → Option Text
unfolding canonicalize_ed25519_public_key
canonical_by base64 raw = to_option (canonicalize_ed25519_public_key base64 raw)

pub get-values {κ} :
    (P : Text → Type κ) (m : Dict Text) (k v : Text)
    → All P (Dict.values m)
    → Dict.get m k ≡ some v
    → P v
unfolding Dict.get
get-values P [] k v a h = absurd (cc)
get-values P ((j, w) ∷ m) k v a h =
    if_elim (λ o. o ≡ some v → P v) (text_eq j k) (λ _ e. subst P (some_injective w e) a.0)
      (λ _ e. get-values P m k v a.1 e) h
  where
    some_injective : (w : Text) → some w ≡ some v → w ≡ v
    some_injective w e = cc

pub contains-values :
    (m : Dict Text) (k v : Text) → Dict.get m k ≡ some v → contains (Dict.values m) v ≡ true
unfolding Dict.get contains
contains-values [] k v h = absurd (cc)
contains-values ((j, w) ∷ m) k v h = elim (Bool-cases (text_eq j k)) [
  | inl same ↦ ground (arith, text_eq_iff w v)
  | inr other ↦ ground (arith, contains-values m k v)
]

-- The alias of one key is no other key's.
pub others_differ :
    (m : Dict Text) (k v : Text)
    → Unique (Dict.values m)
    → Dict.get m k ≡ some v
    → All (λ (e : Text × Text). text_eq e.0 k ≡ false → text_eq e.1 v ≡ false) m
unfolding Dict.get contains
others_differ [] k v u h = tt
others_differ ((j, w) ∷ m) k v u h = elim (Bool-cases (text_eq j k)) [
  | inl same ↦ ((λ e. absurd (cc)), rest w (ground (arith)) m u.0)
  | inr other ↦ (
    (λ _. ground (arith, contains-values m k v, text_eq_iff w v, u.0)),
    others_differ m k v u.1 (ground arith),
  )
]
  where
    rest :
        (w : Text)
        → w ≡ v
        → (m : Dict Text) → contains (Dict.values m) w ≡ false
        → All (λ (e : Text × Text). text_eq e.0 k ≡ false → text_eq e.1 v ≡ false) m
    rest w e [] n = tt
    rest w e ((i, x) ∷ m) n =
        ((λ _. ground (arith, text_eq_iff x v, text_eq_iff x w)), rest w e m (ground arith))

pub All_map {ℓ κ} :
    {A : Type ℓ} (P : Text → Type κ) (f : A → Text) (l : List A)
    → All P (map f l)
    → All (λ x. P (f x)) l
All_map P f [] a = tt
All_map P f (x ∷ l) a = (a.0, All_map P f l a.1)

pub map_All {ℓ κ} :
    {A : Type ℓ} (P : Text → Type κ) (f : A → Text) (l : List A)
    → All (λ x. P (f x)) l
    → All P (map f l)
map_All P f [] a = tt
map_All P f (x ∷ l) a = (a.0, map_All P f l a.1)

pub siblings_All {ℓ} :
    {A B : Type ℓ} (P : B → Type 0) (g : A → B) (l : List A)
    → All (λ x. P (g x)) l
    → All P (map g l)
siblings_All P g [] a = tt
siblings_All P g (x ∷ l) a = (a.0, siblings_All P g l a.1)

pub map-map {ℓ κ} :
    {A : Type ℓ} {B : Type κ} (f : B → Text) (g : A → B) (l : List A)
    → map f (map g l) ≡ map (λ x. f (g x)) l
map-map f g [] = refl
map-map f g (x ∷ l) = ap (λ t. f (g x) ∷ t) (map-map f g l)

pub take-full : (t : Text) → is_empty t ≡ false → is_empty (take 8 t) ≡ false
take-full [] h = h
take-full (c ∷ t) h = refl

pub key-full : (t : Text) → IsKeyText t → is_empty t ≡ false
key-full t w = subst (λ s. is_empty s ≡ false) (sym w.padded) (is_empty-padded w.body)

pub label-full :
    (o : Option Text) (k : Text)
    → truthy o ≡ o
    → is_empty k ≡ false
    → is_empty (option_else o (take 8 k) (λ nickname. nickname)) ≡ false
label-full none k h f = take-full k f
label-full (some []) k h f = absurd (cc)
label-full (some (c ∷ t)) k h f = refl

pub sort_texts-Unique : (ts : List Text) → Unique ts → Unique (sort_by (λ t. t) ts)
sort_texts-Unique ts u =
    subst Unique (map-id (sort_by (λ t. t) ts))
      (sort-Unique (λ t. t) (λ t. t) ts (subst Unique (sym (map-id ts)) u))

pub truthy-some : (t : Text) → is_empty t ≡ false → truthy (some t) ≡ some t
truthy-some [] h = absurd (cc)
truthy-some (c ∷ t) h = refl

pub has-some {ℓ} : {V : Type ℓ} (o : Option V) → is_some o ≡ true → (v : V) × (o ≡ some v)
has-some none h = absurd (cc)
has-some (some v) h = (v, refl)
