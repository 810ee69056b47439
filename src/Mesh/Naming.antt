-- ===== src/Mesh/Naming.antt =====
-- The aliases that identities are given, once an allocation has one for each.
use un_bien.Prelude.{
  ◌≡◌, refl, ap, ◌∙◌, inl, inr, false, some, List, [], ◌∷◌, map, Text, text_eq, text_eq_iff,
  eq_of_text_eq, arith, All, contains, Bool-cases, Option-cases, option_else, is_some,
}
use un_bien.Prelude.Dict
use un_bien.Prelude.Dict.{Dict}
use un_bien.Mesh.Aliases.{PreparedRoutingAlias, Allocation}
use un_bien.Mesh.Unique.{Unique}
use un_bien.Mesh.Allocating.{Sound, Has}
use un_bien.Mesh.Prepared.{IsRoutingAlias}

-- The aliases that the identities are given.
unfoldable pub name_in : Allocation → PreparedRoutingAlias → Text
name_in a i = option_else (Dict.get a.alias_by_key i.pc_pubkey) [] (λ alias. alias)

pub get-name_in :
    (a : Allocation) (i : PreparedRoutingAlias)
    → Has a i
    → Dict.get a.alias_by_key i.pc_pubkey ≡ some (name_in a i)
unfolding name_in
get-name_in a i h = elim (Option-cases (Dict.get a.alias_by_key i.pc_pubkey)) [
  | inl out ↦ absurd (cc (h, ap is_some out))
  | inr (s, e) ↦ rw e refl
]

pub names_apart :
    (a : Allocation) (i : PreparedRoutingAlias) (l : List PreparedRoutingAlias)
    → Sound IsRoutingAlias a
    → Has a i
    → All (Has a) l
    → contains (map (λ (j : PreparedRoutingAlias). j.pc_pubkey) l) i.pc_pubkey ≡ false
    → contains (map (name_in a) l) (name_in a i) ≡ false
unfolding contains
names_apart a i [] w h hs n = refl
names_apart a i (j ∷ l) w h hs n = elim (Bool-cases (text_eq (name_in a j) (name_in a i))) [
  | inl same ↦
      let key : j.pc_pubkey ≡ i.pc_pubkey =
        w.apart j.pc_pubkey i.pc_pubkey (name_in a i)
          (get-name_in a j hs.0 ∙ ap some (eq_of_text_eq (name_in a j) (name_in a i) same))
          (get-name_in a i h) in
      absurd (ground (arith, text_eq_iff j.pc_pubkey i.pc_pubkey, key))
  | inr other ↦ rw other (names_apart a i l w h hs.1 (ground arith))
]

pub names-Unique :
    (a : Allocation) (l : List PreparedRoutingAlias)
    → Sound IsRoutingAlias a
    → All (Has a) l
    → Unique (map (λ (j : PreparedRoutingAlias). j.pc_pubkey) l)
    → Unique (map (name_in a) l)
names-Unique a [] w hs u = tt
names-Unique a (i ∷ l) w hs u = (names_apart a i l w hs.0 hs.1 u.0, names-Unique a l w hs.1 u.1)

pub names-IsRoutingAlias :
    (a : Allocation) (l : List PreparedRoutingAlias)
    → Sound IsRoutingAlias a
    → All (Has a) l
    → All IsRoutingAlias (map (name_in a) l)
names-IsRoutingAlias a [] w hs = tt
names-IsRoutingAlias a (i ∷ l) w hs =
    (w.good i.pc_pubkey (name_in a i) (get-name_in a i hs.0), names-IsRoutingAlias a l w hs.1)

pub keys-map {ℓ} :
    {A : Type ℓ} (k n : A → Text) (l : List A) → Dict.keys (map (λ i. (k i, n i)) l) ≡ map k l
keys-map k n [] = refl
keys-map k n (i ∷ l) = ap (λ ks. k i ∷ ks) (keys-map k n l)

pub values-map {ℓ} :
    {A : Type ℓ} (k n : A → Text) (l : List A) → Dict.values (map (λ i. (k i, n i)) l) ≡ map n l
values-map k n [] = refl
values-map k n (i ∷ l) = ap (λ ks. n i ∷ ks) (values-map k n l)
