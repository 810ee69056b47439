-- ===== src/Mesh/Allocation.antt =====
-- What `allocateRoutingAliases` comes to for identities that are told apart by their keys.
use un_bien.Prelude.{
  ◌≡◌, refl, sym, subst, inl, inr, ◌<◌, true, false, List, [], ◌∷◌, map, Text, arith, All, any,
  contains, length, keep, sort_by, Bool-cases,
}
use un_bien.Prelude.Dict
use un_bien.Prelude.Dict.{Dict}
use un_bien.Prelude.Results.{ok}
use un_bien.Mesh.Aliases.{
  PreparedRoutingAlias, Allocation, candidate, group_by_base, enter_singles, enter_colliding,
  is_colliding, base_of, empty_allocation, allocate_prepared,
}
use un_bien.Mesh.Unique.{Unique, sort-Unique, keep-Unique, sort-All, All-sort, keep-All, All-keep}
use un_bien.Mesh.Grouping.{
  has_base, IsGroup, groups-Distinct, groups-IsGroup, groups-nonempty, keys-Unique, All-groups,
}
use un_bien.Mesh.Allocating.{Sound, Has, empty-Sound, enter_singles-Sound}
use un_bien.Mesh.Collisions.{
  Groups, HasAll, Fine, Entered, enter_singles-HasAll, enter_colliding-Entered, is_tilde, Tilded,
}
use un_bien.Mesh.Telling.{Distinguished, enter_colliding-ok}
use un_bien.Mesh.Prepared.{
  IsRoutingAlias, IsPrepared, no_tilde, base-IsRoutingAlias, candidate-IsRoutingAlias, All-map,
  All-both, All-has_base, All-keys, enter_singles-Plain,
}
use un_bien.Mesh.Naming.{name_in, names-Unique, names-IsRoutingAlias, keys-map, values-map}

-- What an allocation of aliases is to the identities.
pub record Told (l : List PreparedRoutingAlias) (aliases : Dict Text) : Type 0 where
  pub keys : Dict.keys aliases ≡ map (λ (i : PreparedRoutingAlias). i.pc_pubkey) l
  pub apart : Unique (Dict.values aliases)
  pub shape : All IsRoutingAlias (Dict.values aliases)

module _ (l : List PreparedRoutingAlias) (w : All IsPrepared l)
    (keys : Unique (map (λ (i : PreparedRoutingAlias). i.pc_pubkey) l))
    (urls : Unique (map (λ (i : PreparedRoutingAlias). i.key_url) l)) where
  groups : Groups
  groups = group_by_base [] l

  -- The identities of a group, with what is known of them.
  abbrev Known : Text × List PreparedRoutingAlias → Type 0
  Known (b, g) =
      All (λ (i : PreparedRoutingAlias). (i.base ≡ b) × IsPrepared i) g
      × Unique (map (λ (i : PreparedRoutingAlias). i.key_url) g)

  groups-Known : All Known (group_by_base [] l)
  groups-Known = All-map (IsGroup l) Known (group_by_base [] l) known (groups-IsGroup l)
    where
      known : (e : Text × List PreparedRoutingAlias) → IsGroup l e → Known e
      known (b, g) same =
          subst (λ h. Known (b, h)) (sym same)
            (
              All-both _ _ (keep (has_base b) l) (All-has_base b l)
                  (keep-All IsPrepared (has_base b) l w),
              keep-Unique (λ (i : PreparedRoutingAlias). i.key_url) (has_base b) l urls,
            )

  start : Allocation
  start = enter_singles empty_allocation (group_by_base [] l)

  colliding : Groups
  colliding = sort_by base_of (keep is_colliding (group_by_base [] l))

  base_plain :
      (b : Text) (g : List PreparedRoutingAlias)
      → 0 < length g
      → Known (b, g)
      → any is_tilde b ≡ false
  base_plain b [] h k = absurd (omega (arith, h))
  base_plain b (i ∷ g) h k =
      subst (λ t. any is_tilde t ≡ false) k.0.0.0 (no_tilde i.base k.0.0.1.base_plain)

  abbrev Sorted : Text × List PreparedRoutingAlias → Type 0
  Sorted e = (0 < length e.1) × Known e

  groups-Sorted : All Sorted (group_by_base [] l)
  groups-Sorted = All-both _ _ (group_by_base [] l) (groups-nonempty l) groups-Known

  reserved_plain :
      (t : Text) → contains (Dict.keys (group_by_base [] l)) t ≡ true → any is_tilde t ≡ false
  reserved_plain t =
      All-keys (λ s. any is_tilde s ≡ false) (group_by_base [] l) t
        (All-map Sorted _ (group_by_base [] l) (λ e s. base_plain e.0 e.1 s.0 s.1) groups-Sorted)

  start-Sound : Sound IsRoutingAlias start
  unfolding start contains
  start-Sound =
      enter_singles-Sound IsRoutingAlias empty_allocation (group_by_base [] l)
        (empty-Sound IsRoutingAlias)
        (All-map Known _ (group_by_base [] l)
          (λ e k.
            All-map _ _ e.1
              (λ i (h : (i.base ≡ e.0) × IsPrepared i). (h.0, base-IsRoutingAlias i h.1)) k.0)
          groups-Known)
        (keys-Unique (group_by_base [] l) (groups-Distinct l))
        (All-map Known _ (group_by_base [] l) (λ e k. refl) groups-Known)

  start-Tilded : Tilded [] start
  unfolding start contains
  start-Tilded t taken tilde = absurd (
      cc (
        enter_singles-Plain empty_allocation (group_by_base [] l)
            (All-map Known _ (group_by_base [] l)
              (λ e k. All-map _ _ e.1 (λ i (h : (i.base ≡ e.0) × IsPrepared i). h.1) k.0)
              groups-Known)
            (λ s h. absurd (cc)) t taken,
        tilde,
      ))

  colliding-All :
      (P : Text × List PreparedRoutingAlias → Type 0)
      → ((e : Text × List PreparedRoutingAlias) → Sorted e → P e)
      → All P colliding
  unfolding colliding
  colliding-All P f = sort-All P base_of (keep is_colliding (group_by_base [] l)) (
      keep-All P is_colliding (group_by_base [] l)
        (All-map Sorted P (group_by_base [] l) f groups-Sorted))

  colliding-Unique : Unique (Dict.keys colliding)
  unfolding colliding
  colliding-Unique =
      sort-Unique base_of (λ (e : Text × List PreparedRoutingAlias). e.0)
        (keep is_colliding (group_by_base [] l))
        (keep-Unique (λ (e : Text × List PreparedRoutingAlias). e.0) is_colliding
          (group_by_base [] l) (keys-Unique (group_by_base [] l) (groups-Distinct l)))

  ends :
      (a : Allocation) × (enter_colliding (Dict.keys (group_by_base [] l)) start colliding ≡ ok a)
  unfolding contains
  ends =
      enter_colliding-ok (Dict.keys (group_by_base [] l)) reserved_plain 43 [] start colliding
        (omega arith)
        (colliding-All (Distinguished 43) λ e s. record {
          plain = base_plain e.0 e.1 s.0 s.1;
          some_identity = s.0;
          whole = All-map _ _ e.1 (λ i (h : (i.base ≡ e.0) × IsPrepared i). h.1.key_length) s.1.0;
          unique = s.1.1;
        })
        colliding-Unique (colliding-All _ λ e s. refl) start-Tilded

  entered :
      (a : Allocation)
      → enter_colliding (Dict.keys (group_by_base [] l)) start colliding ≡ ok a
      → Entered IsRoutingAlias start colliding a
  entered a =
      enter_colliding-Entered IsRoutingAlias (Dict.keys (group_by_base [] l)) start colliding a
        start-Sound
        (colliding-All (Fine IsRoutingAlias (Dict.keys (group_by_base [] l))) λ e s n.
          All-map _ _ e.1
            (λ i (h : (i.base ≡ e.0) × IsPrepared i).
              subst (λ b. IsRoutingAlias (candidate b n i)) h.0 (candidate-IsRoutingAlias n i h.1))
            s.1.0)

  all_have : (a : Allocation) → Entered IsRoutingAlias start colliding a → All (Has a) l
  unfolding start colliding
  all_have a e = All-groups l (Has a) (
      All-map _ _ (group_by_base [] l) merge (
        All-both _ _ (group_by_base [] l)
          (enter_singles-HasAll empty_allocation (group_by_base [] l))
          (All-keep (HasAll a) is_colliding (group_by_base [] l)
            (All-sort (HasAll a) base_of (keep is_colliding (group_by_base [] l)) e.has))))
    where
      merge :
          (g : Text × List PreparedRoutingAlias)
          → ((is_colliding g ≡ false
                → HasAll (enter_singles empty_allocation (group_by_base [] l)) g)
              × (is_colliding g ≡ true → HasAll a g))
          → All (Has a) g.1
      merge g h = elim (Bool-cases (is_colliding g)) [
        | inl several ↦ h.1 several
        | inr one ↦ All-map _ _ g.1 e.keeps (h.0 one)
      ]

  pub allocate_prepared-Told :
      (aliases : Dict Text) × (allocate_prepared l ≡ ok aliases) × Told l aliases
  unfolding allocate_prepared start colliding name_in
  allocate_prepared-Told =
      let (a, eq) = ends in
      let e = entered a eq in
      let have = all_have a e in
      (
        map (λ (i : PreparedRoutingAlias). (i.pc_pubkey, name_in a i)) l,
        rw eq refl,
        record {
          keys = keys-map (λ (i : PreparedRoutingAlias). i.pc_pubkey) (name_in a) l;
          apart =
              subst Unique
                (sym (values-map (λ (i : PreparedRoutingAlias). i.pc_pubkey) (name_in a) l))
                (names-Unique a l e.sound have keys);
          shape =
              subst (All IsRoutingAlias)
                (sym (values-map (λ (i : PreparedRoutingAlias). i.pc_pubkey) (name_in a) l))
                (names-IsRoutingAlias a l e.sound have);
        },
      )
