-- ===== src/Mesh/Snapshot.antt =====
-- `buildTopologySnapshot` of extension/src/mesh/siblings.ts. A nickname is a text or not there, so the
-- test on its type is left out.
use un_bien.Prelude.{
  ℕ, Bool, not, Option, none, List, [], ◌∷◌, ◌++◌, map, Text, text_eq, if◌then◌else◌, option_else,
  any, keep, sort_by, take, truthy,
}
use un_bien.Prelude.Dict
use un_bien.Prelude.Dict.{Dict}
use un_bien.Prelude.Results.{Result, ok, err, ◌>>=◌, map_err}
use un_bien.Remote.Topology.{PiRoutingIdentity, MeshTopologySnapshot}
use un_bien.Mesh.Keys.{Base64, KeyError, encode_ed25519_public_key, canonicalize_ed25519_public_key}
use un_bien.Mesh.Aliases.{
  RoutingAliasInput, AliasError, select_routing_nickname, allocate_routing_aliases,
}

pub record OwnerMember : Type 0 where
  pub pc_pubkey : Text
  pub nickname : Option Text

pub record BoundOwnerMembership : Type 0 where
  pub owner_pubkey : Text
  pub members : List OwnerMember

pub data SnapshotError : Type 0 where
  unreadable_key : KeyError → SnapshotError
  no_aliases : AliasError → SnapshotError
  self_alias_invariant_failed : SnapshotError

-- `nicknamesByKey`, with the nickname of one member more.
abbrev pub note_member : Dict (List Text) → OwnerMember → Dict (List Text)
note_member names m = Dict.set names m.pc_pubkey (
    option_else (Dict.get names m.pc_pubkey) [] (λ candidates. candidates)
    ++ option_else (truthy m.nickname) [] (λ nickname. nickname ∷ []))

unfoldable pub note_members : Dict (List Text) → List OwnerMember → Dict (List Text)
note_members names [] = names
note_members names (m ∷ ms) = note_members (note_member names m) ms

abbrev pub is_of : Text → OwnerMember → Bool
is_of self m = text_eq m.pc_pubkey self

abbrev pub freeze_identity : Text → Text → Text → PiRoutingIdentity
freeze_identity pc_pubkey pc_label legacy_pc_label = record {
  pc_pubkey = pc_pubkey;
  pc_label = pc_label;
  legacy_pc_label = legacy_pc_label;
}

-- `selectedNicknames.get(key) ?? key.slice(0, 8)`
abbrev pub legacy_label : Dict (Option Text) → Text → Text
legacy_label selected key =
    option_else (option_else (Dict.get selected key) none (λ nickname. nickname)) (take 8 key)
      (λ nickname. nickname)

abbrev pub sibling_of : Dict (Option Text) → Text × Text → PiRoutingIdentity
sibling_of selected (key, alias) = freeze_identity key alias (legacy_label selected key)

abbrev pub is_sibling : Text → Text × Text → Bool
is_sibling self (key, alias) = not (text_eq key self)

abbrev pub siblings_of : Text → Dict (Option Text) → Dict Text → List PiRoutingIdentity
unfolding sort_by
siblings_of self selected aliases =
    map (sibling_of selected) (sort_by (λ (e : Text × Text). e.0) (keep (is_sibling self) aliases))

-- `!selfLabel` is an error.
unfoldable pub snapshot_of :
    Text → Dict (Option Text) → Dict Text → Result SnapshotError MeshTopologySnapshot
unfolding sort_by
snapshot_of self selected aliases =
    option_else (truthy (Dict.get aliases self)) (err self_alias_invariant_failed) λ label.
      ok (record {
        self = freeze_identity self label (legacy_label selected self);
        siblings = siblings_of self selected aliases;
      })

abbrev pub input_of : Text × Option Text → RoutingAliasInput
input_of (key, nickname) = record { pc_pubkey = key; nickname = nickname }

module _ (base64 : Base64) where
  abbrev pub readable : Text → Result SnapshotError Text
  unfolding canonicalize_ed25519_public_key
  readable raw = map_err unreadable_key (canonicalize_ed25519_public_key base64 raw)

  unfoldable pub normalize_members : List OwnerMember → Result SnapshotError (List OwnerMember)
  unfolding canonicalize_ed25519_public_key
  normalize_members [] = ok []
  normalize_members (m ∷ ms) = do
    key ← readable m.pc_pubkey
    rest ← normalize_members ms
    ok (record { pc_pubkey = key; nickname = m.nickname } ∷ rest)

  -- A membership that does not have this machine counts for nothing.
  unfoldable pub note_memberships :
      Text → Dict (List Text) → List BoundOwnerMembership → Result SnapshotError (Dict (List Text))
  unfolding normalize_members note_members
  note_memberships self names [] = ok names
  note_memberships self names (o ∷ rest) = readable o.owner_pubkey >>= λ owner.
      normalize_members o.members >>= λ members.
      note_memberships self (if any (is_of self) members then note_members names members else names)
        rest

module _ (base64 : Base64) (utf8 : Text → List ℕ) where
  abbrev pub select_nicknames : Dict (List Text) → Dict (Option Text)
  unfolding select_routing_nickname
  select_nicknames = map (λ (e : Text × List Text). (e.0, select_routing_nickname base64 utf8 e.1))

  unfoldable pub build_topology_snapshot :
      List ℕ → List BoundOwnerMembership → Result SnapshotError MeshTopologySnapshot
  unfolding note_memberships snapshot_of allocate_routing_aliases encode_ed25519_public_key
  build_topology_snapshot my_pubkey memberships =
      map_err unreadable_key (encode_ed25519_public_key base64 my_pubkey) >>= λ self.
      note_memberships base64 self ((self, []) ∷ []) memberships >>= λ names.
      map_err no_aliases
        (allocate_routing_aliases base64 utf8 (map input_of (select_nicknames names)))
      >>= λ aliases. snapshot_of self (select_nicknames names) aliases
