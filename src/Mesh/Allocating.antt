-- ===== src/Mesh/Allocating.antt =====
-- The steps of `allocateRoutingAliases` keep the aliases apart, and give one to each identity.
use un_bien.Prelude.{
  ◌≡◌, refl, sym, ap, subst, ◌∙◌, ◌⊎◌, inl, inr, ℕ, zero, suc, true, false, ◌||◌, not, some, List,
  [], ◌∷◌, map, Text, text_eq, text_eq_iff, text_eq_comm, text_cases, if_elim, ==_iff, arith, All,
  any, contains,
}
use un_bien.Prelude.Dict
use un_bien.Prelude.Dict.{Dict}
use un_bien.Mesh.Aliases.{
  PreparedRoutingAlias, Allocation, add_text, enter_alias, enter_singles, candidate, candidates,
  is_free, enter_group, try_prefixes, empty_allocation,
}
use un_bien.Mesh.Unique.{Unique, contains-add_text, size-Unique}

-- The aliases are told apart, are noted as taken, and are all `Good`.
pub record Sound (Good : Text → Type 0) (a : Allocation) : Type 0 where
  pub noted :
      (k s : Text) → Dict.get a.alias_by_key k ≡ some s → contains a.allocated_aliases s ≡ true
  pub apart :
      (k j s : Text)
      → Dict.get a.alias_by_key k ≡ some s
      → Dict.get a.alias_by_key j ≡ some s
      → k ≡ j
  pub good : (k s : Text) → Dict.get a.alias_by_key k ≡ some s → Good s

abbrev pub Has : Allocation → PreparedRoutingAlias → Type 0
Has a i = Dict.has a.alias_by_key i.pc_pubkey ≡ true

pub Has-enter :
    (a : Allocation) (i j : PreparedRoutingAlias) (s : Text) → Has a j → Has (enter_alias a i s) j
Has-enter a i j s h = ground (arith, Dict.get-set a.alias_by_key i.pc_pubkey j.pc_pubkey s)

pub Has-entered : (a : Allocation) (i : PreparedRoutingAlias) (s : Text) → Has (enter_alias a i s) i
Has-entered a i s = rw (Dict.get-set_self a.alias_by_key i.pc_pubkey s) refl

-- A text is not among those that a list of texts has, where it differs from the first.
pub contains-All {ℓ} :
    {A : Type ℓ} (f : A → Text) (xs : List A) (t : Text)
    → contains (map f xs) t ≡ false
    → All (λ x. text_eq (f x) t ≡ false) xs
unfolding contains
contains-All f [] t h = tt
contains-All f (x ∷ xs) t h = (ground arith, contains-All f xs t (ground arith))

-- The texts that stay untaken when another is taken.
still_free {ℓ} :
    {A : Type ℓ} (f : A → Text) (xs : List A) (set : List Text) (t : Text)
    → All (λ x. contains set (f x) ≡ false) xs
    → contains (map f xs) t ≡ false
    → All (λ x. contains (add_text set t) (f x) ≡ false) xs
unfolding contains
still_free f [] set t a n = tt
still_free f (x ∷ xs) set t a n = (
  contains-add_text set t (f x) ∙ ground (arith, text_eq_comm t (f x)),
  still_free f xs set t a.1 (ground arith),
)

module _ (Good : Text → Type 0) where
  pub empty-Sound : Sound Good empty_allocation
  unfolding Dict.get
  empty-Sound = record {
    noted = λ k s h. absurd (cc);
    apart = λ k j s h g. absurd (cc);
    good = λ k s h. absurd (cc);
  }

  -- What the map has after an alias is entered.
  entered-cases :
      (a : Allocation) (i : PreparedRoutingAlias) (alias k s : Text)
      → Dict.get (enter_alias a i alias).alias_by_key k ≡ some s
      → ((i.pc_pubkey ≡ k) × (alias ≡ s)) ⊎ (Dict.get a.alias_by_key k ≡ some s)
  entered-cases a i alias k s h = elim (text_cases i.pc_pubkey k) [
    | inl e ↦ inl (
      e,
      ground (arith, Dict.get-set a.alias_by_key i.pc_pubkey k alias, text_eq_iff i.pc_pubkey k),
    )
    | inr n ↦
        inr (
          ground
            (arith, Dict.get-set a.alias_by_key i.pc_pubkey k alias, text_eq_iff i.pc_pubkey k))
  ]

  enter-Sound :
      (a : Allocation) (i : PreparedRoutingAlias) (alias : Text)
      → Sound Good a
      → contains a.allocated_aliases alias ≡ false
      → Good alias
      → Sound Good (enter_alias a i alias)
  enter-Sound a i alias w free g = record {
    noted = λ k s h.
        contains-add_text a.allocated_aliases alias s ∙ elim (entered-cases a i alias k s h) [
          | inl (e, f) ↦ rw ((text_eq_iff alias s).1 f) refl
          | inr old ↦ rw (w.noted k s old) (ground arith)
        ];
    apart = λ k j s h h'. elim (entered-cases a i alias k s h) [
      | inl (e, f) ↦ elim (entered-cases a i alias j s h') [
        | inl (e', f') ↦ sym e ∙ e'
        | inr old ↦ absurd (cc (w.noted j s old, free, f))
      ]
      | inr old ↦ elim (entered-cases a i alias j s h') [
        | inl (e', f') ↦ absurd (cc (w.noted k s old, free, f'))
        | inr old' ↦ w.apart k j s old old'
      ]
    ];
    good = λ k s h. elim (entered-cases a i alias k s h) [
      | inl (e, f) ↦ subst Good f g
      | inr old ↦ w.good k s old
    ];
  }

  abbrev Untaken : Allocation → Dict (List PreparedRoutingAlias) → Type 0
  Untaken a =
      All (λ (e : Text × List PreparedRoutingAlias). contains a.allocated_aliases e.0 ≡ false)

  -- The identities of each group have its name for a base, and a base is a good alias.
  abbrev pub Based : Dict (List PreparedRoutingAlias) → Type 0
  Based = All (λ (e : Text × List PreparedRoutingAlias).
      All (λ (i : PreparedRoutingAlias). (i.base ≡ e.0) × Good i.base) e.1)

  pub enter_singles-Sound :
      (a : Allocation) (es : Dict (List PreparedRoutingAlias))
      → Sound Good a
      → Based es
      → Unique (Dict.keys es)
      → Untaken a es
      → Sound Good (enter_singles a es)
  unfolding enter_singles
  enter_singles-Sound a [] w g u f = w
  enter_singles-Sound a ((b, []) ∷ es) w g u f = enter_singles-Sound a es w g.1 u.1 f.1
  enter_singles-Sound a ((b, i ∷ []) ∷ es) w g u f =
      let (same, fine) = g.0.0 in
      enter_singles-Sound (enter_alias a i i.base) es
        (enter-Sound a i i.base w (ap (contains a.allocated_aliases) same ∙ f.0) fine) g.1 u.1
        (still_free (λ (e : Text × List PreparedRoutingAlias). e.0) es a.allocated_aliases i.base
          f.1 (ap (contains (Dict.keys es)) same ∙ u.0))
  enter_singles-Sound a ((b, i ∷ j ∷ g') ∷ es) w g u f = enter_singles-Sound a es w g.1 u.1 f.1

  enter_group-Sound :
      (a : Allocation) (b : Text) (n : ℕ) (g : List PreparedRoutingAlias)
      → Sound Good a
      → All (λ i. Good (candidate b n i)) g
      → Unique (candidates b n g)
      → All (λ i. contains a.allocated_aliases (candidate b n i) ≡ false) g
      → Sound Good (enter_group a b n g)
  unfolding enter_group
  enter_group-Sound a b n [] w fine u f = w
  enter_group-Sound a b n (i ∷ g) w fine u f =
      enter_group-Sound (enter_alias a i (candidate b n i)) b n g
        (enter-Sound a i (candidate b n i) w f.0 fine.0) fine.1 u.1
        (still_free (candidate b n) g a.allocated_aliases (candidate b n i) f.1 u.0)

  free-Untaken {ℓ} :
      {A : Type ℓ} (c : A → Text) (reserved : List Text) (a : Allocation) (g : List A)
      → not (any (λ t. contains reserved t || contains a.allocated_aliases t) (map c g)) ≡ true
      → All (λ i. contains a.allocated_aliases (c i) ≡ false) g
  free-Untaken c reserved a [] h = tt
  free-Untaken c reserved a (i ∷ g) h = (ground arith, free-Untaken c reserved a g (ground arith))

  pub free_group-Sound :
      (reserved : List Text) (a : Allocation) (b : Text) (n : ℕ) (g : List PreparedRoutingAlias)
      → Sound Good a
      → All (λ i. Good (candidate b n i)) g
      → is_free reserved a (candidates b n g) ≡ true
      → Sound Good (enter_group a b n g)
  unfolding is_free
  free_group-Sound reserved a b n g w fine h =
      enter_group-Sound a b n g w fine
        (size-Unique (candidates b n g) ((==_iff _ _).0 (ground arith)))
        (free-Untaken (candidate b n) reserved a g (ground arith))

-- What `try_prefixes` finds is a free prefix.
unfoldable pub Tried :
    List Text → Allocation → Text → List PreparedRoutingAlias → Allocation → Type 0
Tried reserved a b g next =
    (n : ℕ) × (is_free reserved a (candidates b n g) ≡ true) × (next ≡ enter_group a b n g)

pub try_prefixes-Tried :
    (reserved : List Text) (a : Allocation) (b : Text) (g : List PreparedRoutingAlias)
    (rounds n : ℕ) (next : Allocation)
    → try_prefixes reserved a b g rounds n ≡ some next
    → Tried reserved a b g next
unfolding try_prefixes Tried
try_prefixes-Tried reserved a b g zero n next h = absurd (cc)
try_prefixes-Tried reserved a b g (suc rounds) n next h =
    if_elim (λ o. o ≡ some next → Tried reserved a b g next) (is_free reserved a (candidates b n g))
      (λ free same. (n, free, cc))
      (λ _ later. try_prefixes-Tried reserved a b g rounds (suc n) next later) h
