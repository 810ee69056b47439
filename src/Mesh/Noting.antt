-- ===== src/Mesh/Noting.antt =====
-- The nicknames that `buildTopologySnapshot` collects, and the keys that it collects them for.
use un_bien.Prelude.{
  ◌≡◌, refl, sym, subst, true, Option, none, some, List, [], ◌∷◌, map, ℕ, Text, text_eq,
  eq_of_text_eq, if◌then◌else◌, if_elim, arith, All, any, truthy,
}
use un_bien.Prelude.Dict
use un_bien.Prelude.Dict.{Dict}
use un_bien.Prelude.Results.{ok}
use un_bien.Mesh.Keys.{Base64, canonicalize_ed25519_public_key}
use un_bien.Mesh.Canonical.{IsBase64, IsKeyText, canonicalize_idem}
use un_bien.Mesh.Aliases.{is_before, select_from, select_routing_nickname}
use un_bien.Mesh.Snapshot.{
  OwnerMember, BoundOwnerMembership, note_member, note_members, is_of, input_of, normalize_members,
  note_memberships, select_nicknames,
}
use un_bien.Mesh.Preparing.{Keyed}

set-All {ℓ κ} :
    {V : Type ℓ} (P : Text × V → Type κ) (m : Dict V) (k : Text) (v : V)
    → P (k, v)
    → All P m
    → All P (Dict.set m k v)
unfolding Dict.set
set-All P [] k v p a = (p, tt)
set-All P ((j, w) ∷ m) k v p a =
    if_elim (All P) (text_eq j k)
      (λ same. (subst (λ t. P (t, v)) (sym (eq_of_text_eq j k same)) p, a.1))
      (λ _. (a.0, set-All P m k v p a.1))

set-has {ℓ} :
    {V : Type ℓ} (m : Dict V) (k j : Text) (v : V)
    → Dict.has m j ≡ true
    → Dict.has (Dict.set m k v) j ≡ true
set-has m k j v h = ground (arith, Dict.get-set m k j v)

-- A nickname that is selected is not empty.
select_from-full :
    (base64 : Base64) (utf8 : Text → List ℕ) (o : Option Text) (cs : List Text)
    → truthy o ≡ o
    → truthy (select_from base64 utf8 o cs) ≡ select_from base64 utf8 o cs
unfolding select_from
select_from-full base64 utf8 o [] h = h
select_from-full base64 utf8 o ([] ∷ cs) h = select_from-full base64 utf8 o cs h
select_from-full base64 utf8 o ((c ∷ t) ∷ cs) h =
    select_from-full base64 utf8 (if is_before base64 utf8 (c ∷ t) o then some (c ∷ t) else o) cs
      (if_elim (λ s. truthy s ≡ s) (is_before base64 utf8 (c ∷ t) o) (λ _. refl) (λ _. h))

pub select-full :
    (base64 : Base64) (utf8 : Text → List ℕ) (cs : List Text)
    → truthy (select_routing_nickname base64 utf8 cs) ≡ select_routing_nickname base64 utf8 cs
unfolding select_routing_nickname
select-full base64 utf8 cs = select_from-full base64 utf8 none cs refl

module _ (base64 : Base64) (laws : IsBase64 base64) where
  -- A key in its canonical spelling.
  abbrev pub IsCanonical : Text → Type 0
  IsCanonical k = (canonicalize_ed25519_public_key base64 k ≡ ok k) × IsKeyText k

  abbrev pub IsReadable : Text → Type 0
  IsReadable raw = (k : Text) × (canonicalize_ed25519_public_key base64 raw ≡ ok k)

  -- The keys of a membership, its owner's and its members', can be read.
  abbrev pub IsReadableMembership : BoundOwnerMembership → Type 0
  IsReadableMembership o =
      IsReadable o.owner_pubkey × All (λ (m : OwnerMember). IsReadable m.pc_pubkey) o.members

  -- The keys for which names are noted.
  pub record Noted (self : Text) (names : Dict (List Text)) : Type 0 where
    pub distinct : Dict.Distinct names
    pub canonical : All (λ (e : Text × List Text). IsCanonical e.0) names
    pub has_self : Dict.has names self ≡ true

  abbrev AreCanonical : List OwnerMember → Type 0
  AreCanonical = All (λ (m : OwnerMember). IsCanonical m.pc_pubkey)

  note_members-Noted :
      (self : Text) (names : Dict (List Text)) (ms : List OwnerMember)
      → Noted self names
      → AreCanonical ms
      → Noted self (note_members names ms)
  unfolding note_members
  note_members-Noted self names [] w a = w
  note_members-Noted self names (m ∷ ms) w a =
      note_members-Noted self (note_member names m) ms
        (record {
          distinct = Dict.set-Distinct names m.pc_pubkey _ w.distinct;
          canonical =
              set-All (λ (e : Text × List Text). IsCanonical e.0) names m.pc_pubkey _ a.0
                w.canonical;
          has_self = set-has names m.pc_pubkey self _ w.has_self;
        })
        a.1

  canonical_of : (raw k : Text) → canonicalize_ed25519_public_key base64 raw ≡ ok k → IsCanonical k
  canonical_of raw k h = let (idem, text, _) = canonicalize_idem base64 laws raw k h in (idem, text)

  normalize_members-ok :
      (ms : List OwnerMember)
      → All (λ (m : OwnerMember). IsReadable m.pc_pubkey) ms
      → (ns : List OwnerMember) × (normalize_members base64 ms ≡ ok ns) × AreCanonical ns
  unfolding normalize_members
  normalize_members-ok [] a = ([], refl, tt)
  normalize_members-ok (m ∷ ms) a =
      let (k, e) = a.0 in
      let (ns, more, w) = normalize_members-ok ms a.1 in
      (
        record { pc_pubkey = k; nickname = m.nickname } ∷ ns,
        rw (e, more) refl,
        (canonical_of m.pc_pubkey k e, w),
      )

  pub note_memberships-ok :
      (self : Text) (names : Dict (List Text)) (os : List BoundOwnerMembership)
      → Noted self names
      → All IsReadableMembership os
      → (names' : Dict (List Text)) × (note_memberships base64 self names os ≡ ok names')
        × Noted self names'
  unfolding note_memberships
  note_memberships-ok self names [] w a = (names, refl, w)
  note_memberships-ok self names (o ∷ os) w a =
      let (k, owner) = a.0.0 in
      let (ns, members, canonical) = normalize_members-ok o.members a.0.1 in
      let (names', rest, w') =
        note_memberships-ok self (if any (is_of self) ns then note_members names ns else names) os
          (if_elim (Noted self) (any (is_of self) ns)
            (λ _. note_members-Noted self names ns w canonical) (λ _. w))
          a.1 in
      (names', rw (owner, members) rest, w')

  pub names-Keyed :
      (utf8 : Text → List ℕ) (names : Dict (List Text))
      → All (λ (e : Text × List Text). IsCanonical e.0) names
      → Keyed base64 (map input_of (select_nicknames base64 utf8 names)) (Dict.keys names)
  unfolding select_routing_nickname
  names-Keyed utf8 [] a = tt
  names-Keyed utf8 ((k, cs) ∷ names) a = (a.0.0, names-Keyed utf8 names a.1)
