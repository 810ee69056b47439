-- ===== src/Mesh/Inputs.antt =====
-- What the inputs of `allocateRoutingAliases` are prepared to, one by one and in a map.
use un_bien.Prelude.{
  ◌≡◌, refl, sym, ap, subst, ◌∙◌, inl, inr, ℕ, ◌<◌, true, false, Option, none, some, List, [], ◌∷◌,
  ◌++◌, map, Text, text_eq, text_eq_iff, eq_of_text_eq, text_lt, if_elim, arith, All, all, contains,
  length, is_empty, sort_by, insert_by, truthy, Bool-cases,
}
use un_bien.Prelude.Dict
use un_bien.Prelude.Dict.{Dict}
use un_bien.Mesh.Keys.{to_url_safe}
use un_bien.Mesh.Aliases.{PreparedRoutingAlias}
use un_bien.Mesh.Unique.{Unique}
use un_bien.Mesh.Prepared.{is_base_character, IsPrepared}
use un_bien.Mesh.Characters.{url_of, url-body, url-plain, length-url, url-injective}
use un_bien.Mesh.Canonical.{IsKeyText}

-- What is relied on of UTF-8: a text that is not empty has bytes, all below 256.
pub record IsUtf8 (utf8 : Text → List ℕ) : Type 0 where
  pub are_bytes : (t : Text) → All (λ b. b < 256) (utf8 t)
  pub full : (t : Text) → is_empty t ≡ false → is_empty (utf8 t) ≡ false

-- What an input is prepared to.
abbrev pub PreparedFrom : PreparedRoutingAlias → Type 0
PreparedFrom i =
    IsKeyText i.pc_pubkey
    × (i.key_url ≡ url_of i.pc_pubkey)
    × (is_empty i.base ≡ false)
    × (all is_base_character i.base ≡ true)

pub url-text : (t : Text) (w : IsKeyText t) → url_of t ≡ map to_url_safe w.body
url-text t w = ap url_of w.padded ∙ url-body w.body w.standard

pub PreparedFrom-IsPrepared : (i : PreparedRoutingAlias) → PreparedFrom i → IsPrepared i
PreparedFrom-IsPrepared i (w, url, full, plain) =
    let key = url ∙ url-text i.pc_pubkey w in
    record {
      base_full = full;
      base_plain = plain;
      key_plain =
          subst (λ t. all is_base_character t ≡ true) (sym key) (url-plain w.body w.standard);
      key_length = ap length key ∙ length-url w.body ∙ w.body_length;
    }

pub url-same : (s t : Text) → IsKeyText s → IsKeyText t → url_of s ≡ url_of t → s ≡ t
url-same s t v w e =
    v.padded
    ∙ ap (λ b. b ++ (b'=' ∷ []))
        (url-injective v.body w.body v.standard w.standard (sym (url-text s v) ∙ e ∙ url-text t w))
    ∙ sym w.padded

pub url_apart :
    (i : PreparedRoutingAlias) (l : List PreparedRoutingAlias)
    → PreparedFrom i
    → All PreparedFrom l
    → contains (map (λ (j : PreparedRoutingAlias). j.pc_pubkey) l) i.pc_pubkey ≡ false
    → contains (map (λ (j : PreparedRoutingAlias). j.key_url) l) i.key_url ≡ false
unfolding contains
url_apart i [] p a n = refl
url_apart i (j ∷ l) p a n = elim (Bool-cases (text_eq j.key_url i.key_url)) [
  | inl same ↦
      let key : j.pc_pubkey ≡ i.pc_pubkey =
        url-same j.pc_pubkey i.pc_pubkey a.0.0 p.0
          (sym a.0.1 ∙ eq_of_text_eq j.key_url i.key_url same ∙ p.1) in
      absurd (ground (arith, text_eq_iff j.pc_pubkey i.pc_pubkey, key))
  | inr other ↦ rw other (url_apart i l p a.1 (ground arith))
]

pub urls-Unique :
    (l : List PreparedRoutingAlias)
    → All PreparedFrom l
    → Unique (map (λ (j : PreparedRoutingAlias). j.pc_pubkey) l)
    → Unique (map (λ (j : PreparedRoutingAlias). j.key_url) l)
urls-Unique [] a u = tt
urls-Unique (i ∷ l) a u = (url_apart i l a.0 a.1 u.0, urls-Unique l a.1 u.1)

pub truthy-full : (o : Option Text) (t : Text) → truthy o ≡ some t → is_empty t ≡ false
truthy-full none t h = absurd (cc)
truthy-full (some []) t h = absurd (cc)
truthy-full (some (c ∷ s)) t h = subst (λ u. is_empty u ≡ false) (same h) refl
  where
    same : some (c ∷ s) ≡ some t → c ∷ s ≡ t
    same e = cc

pub keys-set {ℓ} :
    {V : Type ℓ} (m : Dict V) (k : Text) (v : V)
    → Dict.get m k ≡ none
    → Dict.keys (Dict.set m k v) ≡ Dict.keys m ++ (k ∷ [])
unfolding Dict.get Dict.set
keys-set [] k v h = refl
keys-set ((j, w) ∷ m) k v h = elim (Bool-cases (text_eq j k)) [
  | inl same ↦ absurd (ground arith)
  | inr other ↦ rw other (ap (λ l. j ∷ l) (keys-set m k v (ground arith)))
]

pub map-id : (ts : List Text) → map (λ t. t) ts ≡ ts
map-id [] = refl
map-id (t ∷ ts) = ap (λ l. t ∷ l) (map-id ts)

pub still_new :
    (m : Dict PreparedRoutingAlias) (p : PreparedRoutingAlias) (k : Text)
    → p.pc_pubkey ≡ k
    → (ks : List Text) → All (λ t. text_eq t k ≡ false) ks
    → All (λ t. Dict.get m t ≡ none) ks
    → All (λ t. Dict.get (Dict.set m p.pc_pubkey p) t ≡ none) ks
still_new m p k key [] a f = tt
still_new m p k key (t ∷ ks) a f = (
  ground (arith, Dict.get-set m p.pc_pubkey t p, text_eq_iff p.pc_pubkey t, text_eq_iff t k, key),
  still_new m p k key ks a.1 f.1,
)

abbrev pub Entry : Text × PreparedRoutingAlias → Type 0
Entry (k, p) = (p.pc_pubkey ≡ k) × PreparedFrom p

pub set-Entry :
    (m : Dict PreparedRoutingAlias) (p : PreparedRoutingAlias)
    → PreparedFrom p
    → All Entry m
    → All Entry (Dict.set m p.pc_pubkey p)
unfolding Dict.set
set-Entry [] p f e = ((refl, f), tt)
set-Entry ((j, q) ∷ m) p f e =
    if_elim (All Entry) (text_eq j p.pc_pubkey)
      (λ same. ((sym (eq_of_text_eq j p.pc_pubkey same), f), e.1)) (λ _. (e.0, set-Entry m p f e.1))

pub map-insert {ℓ} :
    {A : Type ℓ} (f : A → Text) (x : A) (l : List A)
    → map f (insert_by f x l) ≡ insert_by (λ t. t) (f x) (map f l)
unfolding insert_by
map-insert f x [] = refl
map-insert f x (y ∷ l) = elim (Bool-cases (text_lt (f y) (f x))) [
  | inl before ↦ rw before (ap (λ ts. f y ∷ ts) (map-insert f x l))
  | inr after ↦ rw after refl
]

pub map-sort {ℓ} :
    {A : Type ℓ} (f : A → Text) (l : List A) → map f (sort_by f l) ≡ sort_by (λ t. t) (map f l)
unfolding sort_by
map-sort f [] = refl
map-sort f (x ∷ l) = map-insert f x (sort_by f l) ∙ ap (insert_by (λ t. t) (f x)) (map-sort f l)

pub values-PreparedFrom :
    (m : Dict PreparedRoutingAlias) → All Entry m → All PreparedFrom (Dict.values m)
values-PreparedFrom [] e = tt
values-PreparedFrom ((k, p) ∷ m) e = (e.0.1, values-PreparedFrom m e.1)

pub values-keys :
    (m : Dict PreparedRoutingAlias)
    → All Entry m
    → map (λ (i : PreparedRoutingAlias). i.pc_pubkey) (Dict.values m) ≡ Dict.keys m
values-keys [] e = refl
values-keys ((k, p) ∷ m) e = rw (values-keys m e.1) (ap (λ t. t ∷ Dict.keys m) e.0.0)
