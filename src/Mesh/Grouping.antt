-- ===== src/Mesh/Grouping.antt =====
-- The groups that `allocateRoutingAliases` makes: the identities of each base.
use un_bien.Prelude.{
  ◌≡◌, refl, sym, ap, subst, ◌∙◌, inl, inr, Bool, Option, none, some, List, [], ◌∷◌, ◌++◌,
  append-nil, append_assoc, Text, text_eq, text_eq_refl, eq_of_text_eq, if_elim, arith, All,
  contains, keep, option_else, Option-cases, is_some, Bool-cases, length, ◌<◌,
}
use un_bien.Prelude.Dict
use un_bien.Prelude.Dict.{Dict}
use un_bien.Mesh.Aliases.{PreparedRoutingAlias, add_to_group, group_by_base}
use un_bien.Mesh.Unique.{Unique}

abbrev pub has_base : Text → PreparedRoutingAlias → Bool
has_base b i = text_eq i.base b

-- A group, if there is one, with more behind.
joined :
    Option (List PreparedRoutingAlias)
    → List PreparedRoutingAlias
    → Option (List PreparedRoutingAlias)
joined none [] = none
joined none (i ∷ g) = some (i ∷ g)
joined (some h) g = some (h ++ g)

joined-more :
    (o : Option (List PreparedRoutingAlias)) (i : PreparedRoutingAlias)
    (l : List PreparedRoutingAlias)
    → joined (some (option_else o [] (λ g. g) ++ (i ∷ []))) l ≡ joined o (i ∷ l)
unfolding joined
joined-more none i l = refl
joined-more (some h) i l = ap some (append_assoc h (i ∷ []) l)

joined-nil : (o : Option (List PreparedRoutingAlias)) → joined o [] ≡ o
unfolding joined
joined-nil none = refl
joined-nil (some h) = ap some (append-nil h)

joined-none : (l g : List PreparedRoutingAlias) → joined none l ≡ some g → g ≡ l
unfolding joined
joined-none [] g h = absurd (cc)
joined-none (i ∷ l) g h = cc

get-group :
    (groups : Dict (List PreparedRoutingAlias)) (l : List PreparedRoutingAlias) (b : Text)
    → Dict.get (group_by_base groups l) b ≡ joined (Dict.get groups b) (keep (has_base b) l)
unfolding group_by_base
get-group groups [] b = sym (joined-nil (Dict.get groups b))
get-group groups (i ∷ l) b = get-group (add_to_group groups i) l b ∙ step
  where
    step :
        joined (Dict.get (add_to_group groups i) b) (keep (has_base b) l)
        ≡ joined (Dict.get groups b) (keep (has_base b) (i ∷ l))
    step = elim (Bool-cases (text_eq i.base b)) [
      | inl same ↦
          rw
            (
              Dict.get-set groups i.base b
                  (option_else (Dict.get groups i.base) [] (λ g. g) ++ (i ∷ [])),
              same,
            )
            (joined-more (Dict.get groups i.base) i (keep (has_base b) l)
              ∙ ap (λ t. joined (Dict.get groups t) (i ∷ keep (has_base b) l))
                  (eq_of_text_eq i.base b same))
      | inr other ↦
          rw
            (
              Dict.get-set groups i.base b
                  (option_else (Dict.get groups i.base) [] (λ g. g) ++ (i ∷ [])),
              other,
            )
            refl
    ]

group-Distinct :
    (groups : Dict (List PreparedRoutingAlias)) (l : List PreparedRoutingAlias)
    → Dict.Distinct groups
    → Dict.Distinct (group_by_base groups l)
unfolding group_by_base
group-Distinct groups [] d = d
group-Distinct groups (i ∷ l) d =
    group-Distinct (add_to_group groups i) l (Dict.set-Distinct groups i.base _ d)

pub contains-keys {ℓ} :
    {V : Type ℓ} (m : Dict V) (k : Text) → contains (Dict.keys m) k ≡ is_some (Dict.get m k)
unfolding contains Dict.get
contains-keys [] k = refl
contains-keys ((j, v) ∷ m) k = ground (arith, contains-keys m k)

pub keys-Unique {ℓ} : {V : Type ℓ} (m : Dict V) → Dict.Distinct m → Unique (Dict.keys m)
keys-Unique [] d = tt
keys-Unique ((j, v) ∷ m) d = (contains-keys m j ∙ ap is_some d.0, keys-Unique m d.1)

All-keeps {κ} :
    (P : PreparedRoutingAlias → Type κ) (l : List PreparedRoutingAlias)
    → ((b : Text) → All P (keep (has_base b) l))
    → All P l
All-keeps P [] h = tt
All-keeps P (i ∷ l) h = (head, All-keeps P l tail)
  where
    head : P i
    head =
        if_elim (λ ys. All P ys → P i) (has_base i.base i) (λ _ a. a.0)
          (λ n a. absurd (cc (text_eq_refl i.base, n))) (h i.base)

    tail : (b : Text) → All P (keep (has_base b) l)
    tail b =
        if_elim (λ ys. All P ys → All P (keep (has_base b) l)) (has_base b i) (λ _ a. a.1)
          (λ _ a. a) (h b)

module _ (l : List PreparedRoutingAlias) where
  -- Each group holds the identities of its base, in order.
  abbrev pub IsGroup : Text × List PreparedRoutingAlias → Type 0
  IsGroup (b, g) = g ≡ keep (has_base b) l

  pub groups-Distinct : Dict.Distinct (group_by_base [] l)
  groups-Distinct = group-Distinct [] l tt

  get_group-cases :
      (b : Text) (g : List PreparedRoutingAlias)
      → Dict.get (group_by_base [] l) b ≡ some g
      → g ≡ keep (has_base b) l
  unfolding Dict.get
  get_group-cases b g h = joined-none (keep (has_base b) l) g (sym (get-group [] l b) ∙ h)

  pub groups-IsGroup : All IsGroup (group_by_base [] l)
  groups-IsGroup = Dict.All-of_get IsGroup (group_by_base [] l) groups-Distinct get_group-cases

  -- What holds of all that are in groups holds of all.
  pub All-groups {κ} :
      (P : PreparedRoutingAlias → Type κ)
      → All (λ (e : Text × List PreparedRoutingAlias). All P e.1) (group_by_base [] l)
      → All P l
  unfolding Dict.get joined
  All-groups P a = All-keeps P l λ b. elim (Option-cases (Dict.get (group_by_base [] l) b)) [
    | inl out ↦
        subst (All P) (sym (no_group (keep (has_base b) l) (sym (get-group [] l b) ∙ out))) tt
    | inr (g, here) ↦ subst (All P) (get_group-cases b g here) (
        Dict.get-All (λ (e : Text × List PreparedRoutingAlias). All P e.1) (group_by_base [] l) b g
          a here)
  ]
    where
      no_group : (k : List PreparedRoutingAlias) → joined none k ≡ none → k ≡ []
      no_group [] h = refl
      no_group (i ∷ k) h = absurd (cc)

  joined-nonempty : (k g : List PreparedRoutingAlias) → joined none k ≡ some g → 0 < length g
  unfolding joined
  joined-nonempty [] g h = absurd (cc)
  joined-nonempty (i ∷ k) g h =
      subst (λ (f : List PreparedRoutingAlias). 0 < length f) (some_injective h) (omega arith)
    where
      some_injective : some (i ∷ k) ≡ some g → i ∷ k ≡ g
      some_injective e = cc

  -- No group is empty.
  pub groups-nonempty :
      All (λ (e : Text × List PreparedRoutingAlias). 0 < length e.1) (group_by_base [] l)
  unfolding Dict.get
  groups-nonempty =
      Dict.All-of_get (λ (e : Text × List PreparedRoutingAlias). 0 < length e.1)
        (group_by_base [] l) groups-Distinct
        λ b g h. joined-nonempty (keep (has_base b) l) g (sym (get-group [] l b) ∙ h)
