-- ===== src/Mesh/Building.antt =====
-- `buildTopologySnapshot` makes a topology of any memberships whose keys can be read, and the router's
-- `buildRoutingState` accepts it.
use un_bien.Prelude.{
  ◌≡◌, refl, sym, ap, subst, ◌∙◌, ℕ, true, false, Option, none, some, List, [], ◌∷◌, map, Text,
  text_eq, text_eq_refl, if_elim, arith, All, contains, keep, sort_by, truthy, option_else,
}
use un_bien.Prelude.Dict
use un_bien.Prelude.Dict.{Dict}
use un_bien.Prelude.Results.{ok}
use un_bien.Remote.Topology.{MeshTopologySnapshot, RoutingState, build_routing_state}
use un_bien.Remote.Topology.{ok as accepted}
use un_bien.Mesh.Keys.{Base64, canonicalize_ed25519_public_key}
use un_bien.Mesh.Canonical.{IsBase64, IsKey, decode-key, encode-key}
use un_bien.Mesh.Aliases.{select_routing_nickname}
use un_bien.Mesh.Unique.{Unique, contains-sort, sort-Unique, keep-Unique, sort-All, keep-All}
use un_bien.Mesh.Grouping.{contains-keys, keys-Unique}
use un_bien.Mesh.Prepared.{IsRoutingAlias, All-map, All-both, keep-kept}
use un_bien.Mesh.Inputs.{IsUtf8, map-id}
use un_bien.Mesh.Preparing.{AliasesOf, allocate_routing_aliases-AliasesOf}
use un_bien.Mesh.Snapshot.{
  BoundOwnerMembership, sibling_of, is_sibling, siblings_of, snapshot_of, input_of,
  select_nicknames, build_topology_snapshot,
}
use un_bien.Mesh.Noting.{
  IsCanonical, IsReadableMembership, Noted, note_memberships-ok, names-Keyed, select-full,
}
use un_bien.Mesh.Accepting.{pubkey_of, label_of, Proper, Acceptable, build_routing_state-ok}
use un_bien.Mesh.Labelling.{
  canonical_by, get-values, others_differ, All_map, map_All, siblings_All, map-map, key-full,
  label-full, sort_texts-Unique, truthy-some, has-some,
}

module _ (base64 : Base64) (laws : IsBase64 base64) (utf8 : Text → List ℕ)
    (bytes_laws : IsUtf8 utf8) where
  selected-truthy :
      (names : Dict (List Text)) (k : Text)
      → truthy (
          option_else (Dict.get (select_nicknames base64 utf8 names) k) none (λ nickname. nickname))
        ≡ option_else (Dict.get (select_nicknames base64 utf8 names) k) none (λ nickname. nickname)
  unfolding Dict.get select_routing_nickname
  selected-truthy [] k = refl
  selected-truthy ((j, cs) ∷ names) k =
      if_elim
        (λ (o : Option (Option Text)).
          truthy (option_else o none (λ nickname. nickname))
          ≡ option_else o none (λ nickname. nickname))
        (text_eq j k) (λ _. select-full base64 utf8 cs) (λ _. selected-truthy names k)

  canonical_by-some : (k : Text) → IsCanonical base64 laws k → canonical_by base64 k ≡ some k
  unfolding canonicalize_ed25519_public_key
  canonical_by-some k w = rw w.0 refl

  -- What is known of an entry of the aliases that is not this machine's.
  abbrev Known : Text → Text × Text → Type 0
  Known label e = IsCanonical base64 laws e.0 × IsRoutingAlias e.1 × (text_eq e.1 label ≡ false)

  identity-Proper :
      (names : Dict (List Text)) (k a : Text)
      → IsCanonical base64 laws k
      → IsRoutingAlias a
      → Proper (canonical_by base64) (sibling_of (select_nicknames base64 utf8 names) (k, a))
  unfolding select_routing_nickname canonicalize_ed25519_public_key
  identity-Proper names k a c w = record {
    alias = w;
    legacy = label-full _ k (selected-truthy names k) (key-full k c.1);
    key = canonical_by-some k c;
  }

  siblings-Known :
      (self label : Text) (ks : List Text) (aliases : Dict Text)
      → All (IsCanonical base64 laws) ks
      → AliasesOf base64 laws utf8 bytes_laws ks aliases
      → Dict.get aliases self ≡ some label
      → All (Known label) (sort_by (λ (e : Text × Text). e.0) (keep (is_sibling self) aliases))
  siblings-Known self label ks aliases c w h =
      sort-All (Known label) (λ (e : Text × Text). e.0) (keep (is_sibling self) aliases)
        (All-map _ (Known label) (keep (is_sibling self) aliases) known (
          All-both _ _ (keep (is_sibling self) aliases) (keep-kept (is_sibling self) aliases)
            (keep-All Every (is_sibling self) aliases every)))
    where
      Every : Text × Text → Type 0
      Every e =
          IsCanonical base64 laws e.0
          × IsRoutingAlias e.1
          × (text_eq e.0 self ≡ false → text_eq e.1 label ≡ false)

      every : All Every aliases
      every =
          All-map _ Every aliases (λ (e : Text × Text) h. (h.0, h.1.0, h.1.1))
            (All-both _ _ aliases
              (All_map (IsCanonical base64 laws) (λ (e : Text × Text). e.0) aliases
                (subst (All (IsCanonical base64 laws)) (sym w.keys)
                  (sort-All (IsCanonical base64 laws) (λ t. t) ks c)))
              (All-both _ _ aliases
                (All_map IsRoutingAlias (λ (e : Text × Text). e.1) aliases w.shape)
                (others_differ aliases self label w.apart h)))

      known : (e : Text × Text) → (is_sibling self e ≡ true) × Every e → Known label e
      known e h = (h.1.0, h.1.1, h.1.2 (ground arith))

  -- A topology of the aliases of canonical keys is acceptable to the router.
  snapshot-Acceptable :
      (self label : Text) (names : Dict (List Text)) (aliases : Dict Text)
      → Noted base64 laws self names
      → AliasesOf base64 laws utf8 bytes_laws (Dict.keys names) aliases
      → Dict.get aliases self ≡ some label
      → (t : MeshTopologySnapshot) × (snapshot_of self (select_nicknames base64 utf8 names) aliases
          ≡ ok t)
        × (t.self.pc_pubkey ≡ self)
        × Acceptable (canonical_by base64) t
  unfolding snapshot_of select_routing_nickname canonicalize_ed25519_public_key
  snapshot-Acceptable self label names aliases n w h =
      let key = λ (e : Text × Text). e.0 in
      let selected = select_nicknames base64 utf8 names in
      let mine = keep (is_sibling self) aliases in
      let known = siblings-Known self label (Dict.keys names) aliases canonical w h in
      let alias = get-values IsRoutingAlias aliases self label w.shape h in
      let (candidates, here) = has-some (Dict.get names self) n.has_self in
      let own =
        Dict.get-All (λ (e : Text × List Text). IsCanonical base64 laws e.0) names self candidates
          n.canonical here in
      (
        record {
          self = sibling_of selected (self, label);
          siblings = siblings_of self selected aliases;
        },
        rw (h, truthy-some label alias.0) refl,
        refl,
        record {
          self_proper = identity-Proper names self label own alias;
          proper =
              siblings_All (Proper (canonical_by base64)) (sibling_of selected) (sort_by key mine) (
                All-map (Known label) _ (sort_by key mine)
                  (λ (e : Text × Text) k. identity-Proper names e.0 e.1 k.0 k.1) known);
          keys =
              subst Unique (sym (map-map pubkey_of (sibling_of selected) (sort_by key mine))) (
                sort-Unique key key mine
                  (keep-Unique key (is_sibling self) aliases aliases_Unique));
          labels = subst Unique (sym (map-map label_of (sibling_of selected) (sort_by key mine))) (
              sort-Unique key (λ (e : Text × Text). e.1) mine
                (keep-Unique (λ (e : Text × Text). e.1) (is_sibling self) aliases w.apart));
          others_labels =
              siblings_All _ (sibling_of selected) (sort_by key mine)
                (All-map (Known label) _ (sort_by key mine) (λ (e : Text × Text) k. k.2) known);
        },
      )
    where
      canonical : All (IsCanonical base64 laws) (Dict.keys names)
      canonical =
          map_All (IsCanonical base64 laws) (λ (e : Text × List Text). e.0) names n.canonical

      aliases_Unique : Unique (Dict.keys aliases)
      aliases_Unique =
          subst Unique (sym w.keys)
            (sort_texts-Unique (Dict.keys names) (keys-Unique names n.distinct))

  -- The aliases have one for this machine.
  self_alias :
      (self : Text) (names : Dict (List Text)) (aliases : Dict Text)
      → Noted base64 laws self names
      → AliasesOf base64 laws utf8 bytes_laws (Dict.keys names) aliases
      → (label : Text) × (Dict.get aliases self ≡ some label)
  self_alias self names aliases n w = has-some (Dict.get aliases self) (
      sym (contains-keys aliases self)
      ∙ ap (λ ks. contains ks self) w.keys
      ∙ ap (λ ks. contains ks self) (sym (map-id (sort_by (λ t. t) (Dict.keys names))))
      ∙ contains-sort (λ t. t) (λ t. t) (Dict.keys names) self
      ∙ ap (λ ks. contains ks self) (map-id (Dict.keys names))
      ∙ contains-keys names self
      ∙ n.has_self)

  key-IsCanonical : (bytes : List ℕ) → IsKey bytes → IsCanonical base64 laws (base64.to_text bytes)
  unfolding canonicalize_ed25519_public_key
  key-IsCanonical bytes k =
      (rw (decode-key base64 laws bytes k, encode-key base64 bytes k.0) refl, laws.text bytes k)

  first : (self : Text) → IsCanonical base64 laws self → Noted base64 laws self ((self, []) ∷ [])
  unfolding Dict.get
  first self c = record {
    distinct = (refl, tt);
    canonical = (c, tt);
    has_self = rw (text_eq_refl self) refl;
  }

  -- Where Base64 reads back the 43 characters and one of padding that it writes 32 bytes as, and UTF-8
  -- gives bytes: from a key of 32 bytes for this machine and any memberships whose keys can all be read,
  -- whoever their members are and whatever nicknames they have, a topology is made, it has this machine's
  -- key for its own, and the router accepts it.
  pub build_topology_snapshot-accepted :
      (my_pubkey : List ℕ) (memberships : List BoundOwnerMembership)
      → IsKey my_pubkey
      → All (IsReadableMembership base64 laws) memberships
      → (t : MeshTopologySnapshot) × (build_topology_snapshot base64 utf8 my_pubkey memberships
          ≡ ok t)
        × (t.self.pc_pubkey ≡ base64.to_text my_pubkey)
        × ((s : RoutingState) × (build_routing_state (canonical_by base64) t (some t.self.pc_pubkey)
              ≡ accepted s))
  unfolding build_topology_snapshot select_routing_nickname canonicalize_ed25519_public_key
  build_topology_snapshot-accepted my_pubkey memberships k r =
      let self = base64.to_text my_pubkey in
      let (names, noted, n) =
        note_memberships-ok base64 laws self ((self, []) ∷ []) memberships
          (first self (key-IsCanonical my_pubkey k)) r in
      let (aliases, allocated, w) =
        allocate_routing_aliases-AliasesOf base64 laws utf8 bytes_laws
          (map input_of (select_nicknames base64 utf8 names)) (Dict.keys names)
          (names-Keyed base64 laws utf8 names n.canonical) (keys-Unique names n.distinct) in
      let (label, h) = self_alias self names aliases n w in
      let (t, made, same, acceptable) = snapshot-Acceptable self label names aliases n w h in
      (
        t,
        rw (encode-key base64 my_pubkey k.0, noted, allocated) made,
        same,
        build_routing_state-ok (canonical_by base64) t acceptable,
      )
