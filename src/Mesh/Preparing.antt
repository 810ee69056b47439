-- ===== src/Mesh/Preparing.antt =====
-- `allocateRoutingAliases` from its inputs on: what they are prepared to, and what comes of them.
use un_bien.Prelude.{
  ◌≡◌, refl, sym, ap, subst, ◌∙◌, ℕ, true, false, Option, option_elim, none, List, [], ◌∷◌, ◌++◌,
  map, append-nil, append_assoc, Text, All, all, contains, take, is_empty, is_some, sort_by, truthy,
  codes,
}
use un_bien.Prelude.Dict
use un_bien.Prelude.Dict.{Dict}
use un_bien.Prelude.Results.{ok}
use un_bien.Mesh.Keys.{Base64, canonicalize_ed25519_public_key, to_base64_url_no_pad}
use un_bien.Mesh.Aliases.{
  RoutingAliasInput, PreparedRoutingAlias, encode_routing_alias, base_for, prepare_alias, prepare,
  allocate_routing_aliases,
}
use un_bien.Mesh.Unique.{Unique, sort-Unique, sort-All}
use un_bien.Mesh.Grouping.{keys-Unique}
use un_bien.Mesh.Allocating.{contains-All}
use un_bien.Mesh.Prepared.{
  is_base_character, IsPrepared, IsRoutingAlias, All-map, all-append, all-take,
}
use un_bien.Mesh.Characters.{encode_bytes-plain, encode_bytes-full, url-plain}
use un_bien.Mesh.Canonical.{IsBase64, canonicalize-bytes, encode-key}
use un_bien.Mesh.Allocation.{allocate_prepared-Told}
use un_bien.Mesh.Inputs.{
  IsUtf8, PreparedFrom, url-text, PreparedFrom-IsPrepared, urls-Unique, truthy-full, keys-set,
  map-id, still_new, Entry, set-Entry, map-sort, values-PreparedFrom, values-keys,
}

module _ (base64 : Base64) where
  -- The keys of the inputs, in their canonical spelling.
  abbrev pub Keyed : List RoutingAliasInput → List Text → Type 0
  Keyed [] [] = Unit
  Keyed [] (k ∷ ks) = ⊥
  Keyed (i ∷ is) [] = ⊥
  Keyed (i ∷ is) (k ∷ ks) =
      (canonicalize_ed25519_public_key base64 i.pc_pubkey ≡ ok k) × Keyed is ks

module _ (base64 : Base64) (laws : IsBase64 base64) (utf8 : Text → List ℕ)
    (bytes_laws : IsUtf8 utf8) where
  base_for-plain :
      (nickname : Option Text) (key_url : Text)
      → all is_base_character key_url ≡ true
      → (is_empty (base_for base64 utf8 nickname key_url) ≡ false)
        × (all is_base_character (base_for base64 utf8 nickname key_url) ≡ true)
  unfolding encode_routing_alias
  base_for-plain nickname key_url plain =
      option_elim (λ b. (is_empty b ≡ false) × (all is_base_character b ≡ true)) (truthy nickname)
        (λ _. (
          refl,
          all-append is_base_character (codes "pc-") (take 8 key_url) refl
              (all-take is_base_character 8 key_url plain),
        ))
        (λ name e. (
          encode_bytes-full (utf8 name) (bytes_laws.full name (truthy-full nickname name e)),
          encode_bytes-plain (utf8 name) (bytes_laws.are_bytes name),
        ))

  prepare_alias-ok :
      (input : RoutingAliasInput) (k : Text)
      → canonicalize_ed25519_public_key base64 input.pc_pubkey ≡ ok k
      → (p : PreparedRoutingAlias) × (prepare_alias base64 utf8 input ≡ ok p)
        × (p.pc_pubkey ≡ k)
        × PreparedFrom p
  unfolding prepare_alias canonicalize_ed25519_public_key to_base64_url_no_pad
  prepare_alias-ok input k h =
      let (bytes, spells, same, decoded) = canonicalize-bytes base64 laws input.pc_pubkey k h in
      let url = to_base64_url_no_pad base64 bytes in
      let w = laws.text bytes spells.0 in
      let key_plain : all is_base_character url ≡ true =
        subst (λ t. all is_base_character t ≡ true) (sym (url-text (base64.to_text bytes) w))
          (url-plain w.body w.standard) in
      (
        record {
          pc_pubkey = base64.to_text bytes;
          key_url = url;
          base = base_for base64 utf8 input.nickname url;
        },
        rw (decoded, encode-key base64 bytes spells.0.0) refl,
        sym same,
        (
          w,
          refl,
          (base_for-plain input.nickname url key_plain).0,
          (base_for-plain input.nickname url key_plain).1,
        ),
      )

  -- What inputs of different keys are prepared to, behind what there is.
  record Prepares (m : Dict PreparedRoutingAlias) (ks : List Text) (m' : Dict PreparedRoutingAlias)
      : Type 0 where
    keys : Dict.keys m' ≡ Dict.keys m ++ ks
    distinct : Dict.Distinct m'
    entries : All Entry m'

  prepare-ok :
      (m : Dict PreparedRoutingAlias) (is : List RoutingAliasInput) (ks : List Text)
      → Keyed base64 is ks
      → Unique ks
      → All (λ k. Dict.get m k ≡ none) ks
      → Dict.Distinct m
      → All Entry m
      → (m' : Dict PreparedRoutingAlias) × (prepare base64 utf8 m is ≡ ok m') × Prepares m ks m'
  unfolding prepare
  prepare-ok m [] [] n u f d e =
      (m, refl, record { keys = sym (append-nil (Dict.keys m)); distinct = d; entries = e })
  prepare-ok m [] (k ∷ ks) n u f d e = absurd n
  prepare-ok m (i ∷ is) [] n u f d e = absurd n
  prepare-ok m (i ∷ is) (k ∷ ks) n u f d e =
      let (p, made, key, from) = prepare_alias-ok i k n.0 in
      let free : Dict.get m p.pc_pubkey ≡ none = ap (Dict.get m) key ∙ f.0 in
      let (m', rest, w) =
        prepare-ok (Dict.set m p.pc_pubkey p) is ks n.1 u.1
          (still_new m p k key ks
            (contains-All (λ t. t) ks k (ap (λ l. contains l k) (map-id ks) ∙ u.0)) f.1)
          (Dict.set-Distinct m p.pc_pubkey p d) (set-Entry m p from e) in
      (
        m',
        rw (made, ap is_some free) rest,
        record {
          keys =
              w.keys
              ∙ ap (λ l. l ++ ks) (keys-set m p.pc_pubkey p free)
              ∙ append_assoc (Dict.keys m) (p.pc_pubkey ∷ []) ks
              ∙ ap (λ t. Dict.keys m ++ (t ∷ ks)) key;
          distinct = w.distinct;
          entries = w.entries;
        },
      )

  -- What the aliases are to the keys: one for each key, in the order of the keys, no two the same.
  pub record AliasesOf (ks : List Text) (aliases : Dict Text) : Type 0 where
    pub keys : Dict.keys aliases ≡ sort_by (λ k. k) ks
    pub apart : Unique (Dict.values aliases)
    pub shape : All IsRoutingAlias (Dict.values aliases)

  -- Where Base64 reads back the 43 characters and one of padding that it writes 32 bytes as, and UTF-8
  -- gives bytes: inputs whose keys can be read, no two the same, are always given aliases, whatever their
  -- nicknames: each key one, in the order of the keys, no two the same, none of them empty or with a
  -- character other than letters, digits, dots, underscores, dashes, percent signs and tildes.
  pub allocate_routing_aliases-AliasesOf :
      (is : List RoutingAliasInput) (ks : List Text)
      → Keyed base64 is ks
      → Unique ks
      → (aliases : Dict Text) × (allocate_routing_aliases base64 utf8 is ≡ ok aliases)
        × AliasesOf ks aliases
  unfolding allocate_routing_aliases Dict.get
  allocate_routing_aliases-AliasesOf is ks n u =
      let (m, made, w) = prepare-ok [] is ks n u (nothing ks) tt tt in
      let pubkey = λ (i : PreparedRoutingAlias). i.pc_pubkey in
      let from = sort-All PreparedFrom pubkey (Dict.values m) (values-PreparedFrom m w.entries) in
      let apart : Unique (map pubkey (sort_by pubkey (Dict.values m))) =
        sort-Unique pubkey pubkey (Dict.values m)
          (subst Unique (sym (values-keys m w.entries)) (keys-Unique m w.distinct)) in
      let (aliases, done, told) =
        allocate_prepared-Told (sort_by pubkey (Dict.values m))
          (All-map PreparedFrom IsPrepared _ PreparedFrom-IsPrepared from) apart
          (urls-Unique _ from apart) in
      (
        aliases,
        rw made done,
        record {
          keys =
              told.keys
              ∙ map-sort pubkey (Dict.values m)
              ∙ ap (sort_by (λ t. t)) (values-keys m w.entries ∙ w.keys);
          apart = told.apart;
          shape = told.shape;
        },
      )
    where
      nothing : (ks : List Text) → All (λ k. Dict.get {V = PreparedRoutingAlias} [] k ≡ none) ks
      nothing [] = tt
      nothing (k ∷ ks) = (refl, nothing ks)
