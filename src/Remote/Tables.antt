-- ===== src/Remote/Tables.antt =====
-- What is true of the tables that `buildRoutingState` makes.
use un_bien.Prelude.{
  ◌≡◌, refl, sym, subst, ◌∙◌, if_elim, ◌≢◌, ◌⊎◌, inl, inr, Bool, true, false, ◌||◌, not, Option,
  none, some, List, [], ◌∷◌, Text, text_eq, text_eq_iff, text_cases, text_lt, is_empty,
  if◌then◌else◌, arith, All, any,
}
use un_bien.Prelude.Dict
use un_bien.Prelude.Dict.{Dict}
use un_bien.Remote.Topology.{
  PiRoutingIdentity, MeshTopologySnapshot, RoutingState, TopologyError, Checked, ok, err, ◌>>=◌,
  or_throw, is_colon, validate_alias, validate_legacy_pc_label, insert_by_pubkey, sort_by_pubkey,
  empty_tables, enter_sibling, add_sibling, add_siblings, normalize_identity, normalize_siblings,
  others, changes_self, build_tables, build_routing_state, bad_public_key,
}

abbrev pub IsAlias : Text → Type 0
IsAlias alias = (is_empty alias ≡ false) × (any is_colon alias ≡ false)

-- The aliases and the keys of the siblings name each other, none of them is the machine's own, and
-- each sibling has a legacy label.
pub record IsRouting (s : RoutingState) : Type 0 where
  pub distinct : Dict.Distinct s.sibling_by_pubkey
  pub forth :
      (alias key : Text)
      → Dict.get s.sibling_by_label alias ≡ some key
      → Dict.get s.sibling_by_pubkey key ≡ some alias
  pub back :
      (key alias : Text)
      → Dict.get s.sibling_by_pubkey key ≡ some alias
      → Dict.get s.sibling_by_label alias ≡ some key
  pub other :
      (key alias : Text)
      → Dict.get s.sibling_by_pubkey key ≡ some alias
      → IsAlias alias × ((alias ≢ s.self.pc_label) × (key ≢ s.self.pc_pubkey))
  pub labelled :
      (key alias : Text)
      → Dict.get s.sibling_by_pubkey key ≡ some alias
      → (label : Text) × ((Dict.get s.sibling_legacy_label_by_pubkey key ≡ some label)
          × (is_empty label ≡ false))

-- An identity that the checks have let through.
abbrev IsIdentity : PiRoutingIdentity → Type 0
IsIdentity i = IsAlias i.pc_label × (is_empty i.legacy_pc_label ≡ false)

abbrev IsOther : Text → PiRoutingIdentity → Type 0
IsOther self_key i = IsIdentity i × (i.pc_pubkey ≢ self_key)

-- What holds of the value, if there is one.
abbrev pub Sure {ℓ κ} : {A : Type ℓ} → (A → Type κ) → Checked A → Type κ
Sure P (ok a) = P a
Sure P (err e) = Unit

pub Sure-bind {ℓ κ ι} :
    {A : Type ℓ} {B : Type κ} (Q : B → Type ι) (m : Checked A) (f : A → Checked B)
    → ((a : A) → m ≡ ok a → Sure Q (f a))
    → Sure Q (m >>= f)
Sure-bind Q (ok a) f h = h a refl
Sure-bind Q (err e) f h = tt

pub Sure-if {ℓ κ} :
    {A : Type ℓ} (P : A → Type κ) (b : Bool) (e : TopologyError) (m : Checked A)
    → (b ≡ false → Sure P m)
    → Sure P (if b then err e else m)
Sure-if P true e m h = tt
Sure-if P false e m h = h refl

pub Sure-ok {ℓ κ} :
    {A : Type ℓ} (P : A → Type κ) (m : Checked A) (a : A) → Sure P m → m ≡ ok a → P a
Sure-ok P (ok b) a p h = subst P (ok_injective h) p
  where
    ok_injective : ok b ≡ ok a → b ≡ a
    ok_injective e = cc
Sure-ok P (err e) a p h = absurd (cc)

Sure-weaken {ℓ κ ι} :
    {A : Type ℓ} (P : A → Type κ) (Q : A → Type ι) (m : Checked A)
    → ((a : A) → P a → Q a)
    → Sure P m
    → Sure Q m
Sure-weaken P Q (ok a) f h = f a h
Sure-weaken P Q (err e) f h = tt

empty-IsRouting : (self : PiRoutingIdentity) → IsRouting (empty_tables self)
unfolding Dict.get
empty-IsRouting self = record {
  distinct = tt;
  forth = λ alias key h. absurd (ground arith);
  back = λ key alias h. absurd (ground arith);
  other = λ key alias h. absurd (ground arith);
  labelled = λ key alias h. absurd (ground arith);
}

get_of_has {ℓ} : {V : Type ℓ} (m : Dict V) (k : Text) → Dict.has m k ≡ false → Dict.get m k ≡ none
get_of_has m k h = ground arith

-- A dictionary after one entry more: the entry, or what was there under another key.
set-cases {ℓ} :
    {V : Type ℓ} (m : Dict V) (k j : Text) (v w : V)
    → Dict.get (Dict.set m k v) j ≡ some w
    → ((k ≡ j) × (v ≡ w)) ⊎ ((k ≢ j) × (Dict.get m j ≡ some w))
set-cases m k j v w h = elim (text_cases k j) [
  | inl e ↦ inl (e, ground (arith, Dict.get-set m k j v, text_eq_iff k j))
  | inr e ↦ inr (e, ground (arith, Dict.get-set m k j v, text_eq_iff k j))
]

get-set_other {ℓ} :
    {V : Type ℓ} (m : Dict V) (k j : Text) (v : V)
    → k ≢ j
    → Dict.get (Dict.set m k v) j ≡ Dict.get m j
get-set_other m k j v e = ground (arith, Dict.get-set m k j v, text_eq_iff k j)

-- The one dictionary holds the other's entries, the other way round.
abbrev Mirrors : Dict Text → Dict Text → Type 0
Mirrors m n = (j k : Text) → Dict.get m j ≡ some k → Dict.get n k ≡ some j

set-Mirrors :
    (m n : Dict Text) (j k : Text)
    → Mirrors m n
    → Dict.get n k ≡ none
    → Mirrors (Dict.set m j k) (Dict.set n k j)
set-Mirrors m n j k w free i l h = elim (set-cases m j i k l h) [
  | inl (e, f) ↦
      subst (λ t. Dict.get (Dict.set n k j) t ≡ some i) f
        (subst (λ t. Dict.get (Dict.set n k j) k ≡ some t) e (Dict.get-set_self n k j))
  | inr (e, g) ↦ get-set_other n k l j (λ same. cc (w i l g, free, same)) ∙ w i l g
]

enter-IsRouting :
    (s : RoutingState) (i : PiRoutingIdentity)
    → IsRouting s
    → IsOther s.self.pc_pubkey i
    → i.pc_label ≢ s.self.pc_label
    → Dict.get s.sibling_by_pubkey i.pc_pubkey ≡ none
    → Dict.get s.sibling_by_label i.pc_label ≡ none
    → IsRouting (enter_sibling s i)
enter-IsRouting s i w o alias_new key_free alias_free = record {
  distinct = Dict.set-Distinct s.sibling_by_pubkey i.pc_pubkey i.pc_label w.distinct;
  forth =
      set-Mirrors s.sibling_by_label s.sibling_by_pubkey i.pc_label i.pc_pubkey w.forth key_free;
  back =
      set-Mirrors s.sibling_by_pubkey s.sibling_by_label i.pc_pubkey i.pc_label w.back alias_free;
  other = λ key alias h. elim (set-cases s.sibling_by_pubkey i.pc_pubkey key i.pc_label alias h) [
    | inl (e, f) ↦ (subst IsAlias f o.0.0, ((λ same. alias_new (f ∙ same)), λ same. o.1 (e ∙ same)))
    | inr (e, g) ↦ w.other key alias g
  ];
  labelled = λ key alias h.
      elim (set-cases s.sibling_by_pubkey i.pc_pubkey key i.pc_label alias h) [
        | inl (e, f) ↦ (i.legacy_pc_label, (own key e, o.0.1))
        | inr (e, g) ↦
            let (label, (at, full)) = w.labelled key alias g in
            (
              label,
              (
                get-set_other s.sibling_legacy_label_by_pubkey i.pc_pubkey key i.legacy_pc_label e
                    ∙ at,
                full,
              ),
            )
      ];
}
  where
    own :
        (key : Text)
        → i.pc_pubkey ≡ key
        → Dict.get (Dict.set s.sibling_legacy_label_by_pubkey i.pc_pubkey i.legacy_pc_label) key
          ≡ some i.legacy_pc_label
    own key e = ground (
      arith,
      Dict.get-set s.sibling_legacy_label_by_pubkey i.pc_pubkey key i.legacy_pc_label,
      text_eq_iff i.pc_pubkey key,
    )

abbrev Tables : Text → RoutingState → Type 0
Tables self_key s = IsRouting s × (s.self.pc_pubkey ≡ self_key)

add_sibling-Tables :
    (k : Text) (s : RoutingState) (i : PiRoutingIdentity)
    → Tables k s
    → IsOther k i
    → Sure (Tables k) (add_sibling s i)
unfolding add_sibling
add_sibling-Tables k s i (w, e) o =
    Sure-if (Tables k) (text_eq i.pc_label s.self.pc_label) _ _ λ alias.
      Sure-if (Tables k) (Dict.has s.sibling_by_pubkey i.pc_pubkey) _ _ λ key.
        Sure-if (Tables k) (Dict.has s.sibling_by_label i.pc_label) _ _ λ label. (
          enter-IsRouting s i w (subst (λ t. IsOther t i) (sym e) o)
              (λ same. cc (alias, (text_eq_iff i.pc_label s.self.pc_label).1 same))
              (get_of_has s.sibling_by_pubkey i.pc_pubkey key)
              (get_of_has s.sibling_by_label i.pc_label label),
          e,
        )

add_siblings-Tables :
    (k : Text) (s : RoutingState) (is : List PiRoutingIdentity)
    → Tables k s
    → All (IsOther k) is
    → Sure (Tables k) (add_siblings s is)
unfolding add_siblings
add_siblings-Tables k s [] w o = w
add_siblings-Tables k s (i ∷ is) w o =
    Sure-bind (Tables k) (add_sibling s i) (λ next. add_siblings next is)
      λ next h.
        add_siblings-Tables k next is
          (Sure-ok (Tables k) (add_sibling s i) next (add_sibling-Tables k s i w o.0) h) o.1

insert-All :
    (P : PiRoutingIdentity → Type 0) (i : PiRoutingIdentity) (is : List PiRoutingIdentity)
    → P i
    → All P is
    → All P (insert_by_pubkey i is)
unfolding insert_by_pubkey
insert-All P i [] p a = (p, tt)
insert-All P i (j ∷ is) p a =
    if_elim (All P) (text_lt j.pc_pubkey i.pc_pubkey) (λ _. (a.0, insert-All P i is p a.1))
      (λ _. (p, a))

sort-All :
    (P : PiRoutingIdentity → Type 0) (is : List PiRoutingIdentity)
    → All P is
    → All P (sort_by_pubkey is)
unfolding sort_by_pubkey
sort-All P [] a = tt
sort-All P (i ∷ is) a = insert-All P i (sort_by_pubkey is) a.0 (sort-All P is a.1)

others-All :
    (self : PiRoutingIdentity) (is : List PiRoutingIdentity)
    → All IsIdentity is
    → All (IsOther self.pc_pubkey) (others self is)
others-All self [] a = tt
others-All self (i ∷ is) a =
    if_elim (All (IsOther self.pc_pubkey)) (not (text_eq i.pc_pubkey self.pc_pubkey))
      (λ new. ((a.0, λ same. differs new same), others-All self is a.1))
      (λ _. others-All self is a.1)
  where
    differs : not (text_eq i.pc_pubkey self.pc_pubkey) ≡ true → i.pc_pubkey ≢ self.pc_pubkey
    differs new same = ground (arith, text_eq_iff i.pc_pubkey self.pc_pubkey)

validate_alias-IsAlias : (alias : Text) → Sure IsAlias (validate_alias alias)
validate_alias-IsAlias alias =
    Sure-if IsAlias (is_empty alias || any is_colon alias) _ _ (λ h. ground arith)

abbrev IsLabel : Text → Type 0
IsLabel label = is_empty label ≡ false

validate_legacy_pc_label-IsLabel : (label : Text) → Sure IsLabel (validate_legacy_pc_label label)
validate_legacy_pc_label-IsLabel label = Sure-if IsLabel (is_empty label) _ _ (λ h. h)

module _ (canonical : Text → Option Text) where
  normalize_identity-IsIdentity :
      (i : PiRoutingIdentity) → Sure IsIdentity (normalize_identity canonical i)
  unfolding normalize_identity
  normalize_identity-IsIdentity i = Sure-bind IsIdentity (validate_alias i.pc_label) _ λ alias h.
      Sure-bind IsIdentity (validate_legacy_pc_label i.legacy_pc_label) _ λ legacy g.
        Sure-bind IsIdentity (or_throw (canonical i.pc_pubkey) bad_public_key) _ λ key _. (
          Sure-ok IsAlias _ alias (validate_alias-IsAlias i.pc_label) h,
          Sure-ok IsLabel _ legacy (validate_legacy_pc_label-IsLabel i.legacy_pc_label) g,
        )

  normalize_siblings-IsIdentity :
      (is : List PiRoutingIdentity) → Sure (All IsIdentity) (normalize_siblings canonical is)
  unfolding normalize_siblings
  normalize_siblings-IsIdentity [] = tt
  normalize_siblings-IsIdentity (i ∷ is) =
      Sure-bind (All IsIdentity) (normalize_identity canonical i) _ λ first h.
        Sure-bind (All IsIdentity) (normalize_siblings canonical is) _ λ more g. (
          Sure-ok IsIdentity _ first (normalize_identity-IsIdentity i) h,
          Sure-ok (All IsIdentity) _ more (normalize_siblings-IsIdentity is) g,
        )

  build_tables-Tables :
      (expected : Option Text) (self : PiRoutingIdentity) (siblings : List PiRoutingIdentity)
      → Sure (Tables self.pc_pubkey) (build_tables canonical expected self siblings)
  unfolding build_tables
  build_tables-Tables expected self siblings =
      Sure-if (Tables self.pc_pubkey) (changes_self expected self) _ _ λ _.
        Sure-bind (Tables self.pc_pubkey) (normalize_siblings canonical siblings) _ λ is h.
          add_siblings-Tables self.pc_pubkey (empty_tables self) _ (empty-IsRouting self, refl)
            (sort-All (IsOther self.pc_pubkey) _ (
              others-All self is
                (Sure-ok (All IsIdentity) _ is (normalize_siblings-IsIdentity siblings) h)))

  -- The tables of any topology that is accepted name each sibling by one alias and each alias one
  -- sibling, the two directions agreeing; no alias is empty, has a colon or is the machine's own, no
  -- key is the machine's own, and each sibling has a legacy label that is not empty.
  pub build_routing_state-IsRouting :
      (topology : MeshTopologySnapshot) (expected : Option Text) (s : RoutingState)
      → build_routing_state canonical topology expected ≡ ok s
      → IsRouting s
  unfolding build_routing_state
  build_routing_state-IsRouting topology expected s h =
      Sure-ok IsRouting (build_routing_state canonical topology expected) s
        (Sure-bind IsRouting (normalize_identity canonical topology.self) _ λ self _.
          Sure-weaken (Tables self.pc_pubkey) IsRouting _ (λ _ t. t.0)
            (build_tables-Tables expected self topology.siblings))
        h
