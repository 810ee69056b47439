-- ===== src/Tests/Mesh.antt =====
-- Two machines of one nickname, and the theorems about keys, aliases and topologies applied to them.
use un_bien.Prelude.{
  ◌≡◌, refl, contains, ℕ, zero, suc, ◌%◌, ◌<◌, some, false, List, [], ◌∷◌, ◌++◌, map, Text, All,
  arith, codes, is_empty, text_eq,
}
use un_bien.Prelude.Dict
use un_bien.Prelude.Dict.{Dict}
use un_bien.Prelude.Results.{ok}
use un_bien.Remote.Topology.{MeshTopologySnapshot, RoutingState, build_routing_state}
use un_bien.Remote.Topology.{ok as accepted}
use un_bien.Mesh.Keys.{canonicalize_ed25519_public_key, drop_padding, to_standard}
use un_bien.Mesh.Canonical.{IsKey, IsKeyText, canonicalize_idem}
use un_bien.Mesh.Aliases.{RoutingAliasInput, allocate_routing_aliases}
use un_bien.Mesh.Unique.{Unique}
use un_bien.Mesh.Inputs.{IsUtf8}
use un_bien.Mesh.Preparing.{Keyed, AliasesOf, allocate_routing_aliases-AliasesOf}
use un_bien.Mesh.Snapshot.{BoundOwnerMembership, build_topology_snapshot}
use un_bien.Mesh.Labelling.{canonical_by}
use un_bien.Mesh.Building.{build_topology_snapshot-accepted}
use un_bien.Tests.Base64.{base64, base64-IsBase64, to_bytes_of, to_text_of}

abbrev repeat : ℕ → ℕ → List ℕ
repeat zero c = []
repeat (suc n) c = c ∷ repeat n c

abbrev zeros : List ℕ
zeros = repeat 32 0

-- A key that begins with a byte of 252, whose text begins with a slash.
abbrev other_bytes : List ℕ
other_bytes = 252 ∷ repeat 31 0

abbrev zero_key : Text
zero_key = repeat 43 b'A' ++ (b'=' ∷ [])

abbrev other_key : Text
other_key = codes "/" ++ repeat 42 b'A' ++ (b'=' ∷ [])

-- In the alphabet that is safe in addresses, and with no padding.
abbrev other_spelling : Text
other_spelling = codes "_" ++ repeat 42 b'A'

-- UTF-8, on ASCII.
abbrev utf8 : Text → List ℕ
utf8 = map (λ c. c % 256)

utf8-IsUtf8 : IsUtf8 utf8
utf8-IsUtf8 = record { are_bytes = bytes; full = nonempty }
  where
    bytes : (t : Text) → All (λ b. b < 256) (utf8 t)
    bytes [] = tt
    bytes (c ∷ t) = (omega arith, bytes t)

    nonempty : (t : Text) → is_empty t ≡ false → is_empty (utf8 t) ≡ false
    nonempty [] h = h
    nonempty (c ∷ t) h = refl

other_canonical : canonicalize_ed25519_public_key base64 other_spelling ≡ ok other_key
unfolding canonicalize_ed25519_public_key to_bytes_of to_text_of
other_canonical = refl

zero_canonical : canonicalize_ed25519_public_key base64 zero_key ≡ ok zero_key
unfolding canonicalize_ed25519_public_key to_bytes_of to_text_of
zero_canonical = refl

canonicalize_idem_example :
    (canonicalize_ed25519_public_key base64 other_key ≡ ok other_key)
    × IsKeyText other_key
    × (drop_padding (map to_standard other_spelling) ≡ drop_padding other_key)
canonicalize_idem_example =
    canonicalize_idem base64 base64-IsBase64 other_spelling other_key other_canonical

abbrev inputs : List RoutingAliasInput
inputs =
    record { pc_pubkey = zero_key; nickname = some (codes "my pc") }
    ∷ record { pc_pubkey = other_spelling; nickname = some (codes "my pc") }
    ∷ []

abbrev keys : List Text
keys = zero_key ∷ other_key ∷ []

keys-Unique : Unique keys
unfolding contains text_eq
keys-Unique = (refl, (refl, tt))

inputs-Keyed : Keyed base64 inputs keys
unfolding canonicalize_ed25519_public_key
inputs-Keyed = (zero_canonical, (other_canonical, tt))

told_apart :
    allocate_routing_aliases base64 utf8 inputs
    ≡ ok ((other_key, codes "my%20pc~_AAAAAAA") ∷ (zero_key, codes "my%20pc~AAAAAAAA") ∷ [])
unfolding allocate_routing_aliases to_bytes_of to_text_of Dict.get Dict.set
told_apart = refl

allocate_routing_aliases-AliasesOf_example :
    (aliases : Dict Text) × (allocate_routing_aliases base64 utf8 inputs ≡ ok aliases)
    × AliasesOf base64 base64-IsBase64 utf8 utf8-IsUtf8 keys aliases
allocate_routing_aliases-AliasesOf_example =
    allocate_routing_aliases-AliasesOf base64 base64-IsBase64 utf8 utf8-IsUtf8 inputs keys
      inputs-Keyed keys-Unique

abbrev memberships : List BoundOwnerMembership
memberships =
    record {
      owner_pubkey = other_spelling;
      members =
          record { pc_pubkey = zero_key; nickname = some (codes "my pc") }
          ∷ record { pc_pubkey = other_spelling; nickname = some (codes "my pc") }
          ∷ [];
    }
    ∷ []

zeros-IsKey : IsKey zeros
zeros-IsKey = omega arith

build_topology_snapshot-accepted_example :
    (t : MeshTopologySnapshot) × (build_topology_snapshot base64 utf8 zeros memberships ≡ ok t)
    × (t.self.pc_pubkey ≡ to_text_of zeros)
    × ((s : RoutingState) × (build_routing_state (canonical_by base64) t (some t.self.pc_pubkey)
          ≡ accepted s))
build_topology_snapshot-accepted_example =
    build_topology_snapshot-accepted base64 base64-IsBase64 utf8 utf8-IsUtf8 zeros memberships
      zeros-IsKey
      (
        (
          (other_key, other_canonical),
          ((zero_key, zero_canonical), ((other_key, other_canonical), tt)),
        ),
        tt,
      )
