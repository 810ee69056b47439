-- ===== src/Remote/Dropping.antt =====
-- Sets and dictionaries of keys, and the loops that drop the keys that are not known.
use un_bien.Prelude.{
  ◌≡◌, refl, sym, subst, ◌∙◌, ◌≢◌, ◌⊎◌, inl, inr, Bool, true, ◌||◌, List, [], ◌∷◌, ◌++◌, Text,
  text_eq, text_eq_iff, text_cases, if◌then◌else◌, if_elim, arith, contains, keep, Bool-cases,
}
use un_bien.Prelude.Dict
use un_bien.Prelude.Dict.{Dict}
use un_bien.Remote.State.{BrokerRemote, add_key, add_keys, remove_key}
use un_bien.Remote.Retopology.{drop_unknown}
use un_bien.Remote.Keyed.{Within}

module _ (drop : BrokerRemote → Text → BrokerRemote) (known : Dict Text) where
  -- What no drop changes is not changed.
  pub drop_unknown_keeps {ℓ} :
      {A : Type ℓ} (f : BrokerRemote → A)
      → ((r : BrokerRemote) (k : Text) → f (drop r k) ≡ f r)
      → (r : BrokerRemote) (ks : List Text) → f (drop_unknown drop known r ks) ≡ f r
  unfolding drop_unknown
  drop_unknown_keeps f same r [] = refl
  drop_unknown_keeps f same r (k ∷ ks) =
      drop_unknown_keeps f same (if Dict.has known k then r else drop r k) ks
      ∙ if_elim (λ r'. f r' ≡ f r) (Dict.has known k) (λ _. refl) (λ _. same r k)

  -- What is held afterwards was held before, and if its key had its turn, the key is known.
  pub drop_unknown_holds :
      (held : BrokerRemote → Text → Bool)
      → ((r : BrokerRemote) (j k : Text) → held (drop r j) k ≡ true → (held r k ≡ true) × (j ≢ k))
      → (r : BrokerRemote) (ks : List Text) (k : Text)
      → held (drop_unknown drop known r ks) k ≡ true
      → (held r k ≡ true) × (contains ks k ≡ true → Dict.has known k ≡ true)
  unfolding drop_unknown contains
  drop_unknown_holds held gone r [] k h = (h, λ e. absurd (ground arith))
  drop_unknown_holds held gone r (j ∷ ks) k h =
      let later = drop_unknown_holds held gone (if Dict.has known j then r else drop r j) ks k h in
      let now =
        if_elim (λ r'. held r' k ≡ true → (held r k ≡ true) × (j ≡ k → Dict.has known k ≡ true))
          (Dict.has known j) (λ there g. (g, λ e. subst (λ t. Dict.has known t ≡ true) e there))
          (λ _ g. ((gone r j k g).0, λ e. absurd ((gone r j k g).1 e))) later.0 in
      (now.0, turn now.1 later.1)
    where
      turn :
          (j ≡ k → Dict.has known k ≡ true)
          → (contains ks k ≡ true → Dict.has known k ≡ true)
          → (text_eq j k || contains ks k) ≡ true
          → Dict.has known k ≡ true
      turn a b e = ground (arith, text_eq_iff j k)

pub contains-keys {ℓ} :
    {V : Type ℓ} (m : Dict V) (k : Text) → Dict.has m k ≡ true → contains (Dict.keys m) k ≡ true
unfolding contains Dict.get
contains-keys [] k h = h
contains-keys ((j, v) ∷ m) k h = ground (arith, contains-keys m k)

pub contains-remove :
    (ks : List Text) (j k : Text)
    → contains (remove_key ks j) k ≡ true
    → (contains ks k ≡ true) × (j ≢ k)
unfolding contains
contains-remove [] j k h = absurd (ground arith)
contains-remove (i ∷ ks) j k h = elim (text_cases i j) [
  | inl e ↦
      let (a, b) = contains-remove ks j k (ground (arith, text_eq_iff i j)) in (ground arith, b)
  | inr e ↦ elim (text_cases i k) [
    | inl f ↦ (ground (arith, text_eq_iff i k), λ g. e (f ∙ sym g))
    | inr f ↦
        let (a, b) = contains-remove ks j k (ground (arith, text_eq_iff i j, text_eq_iff i k)) in
        (ground arith, b)
  ]
]

pub contains-snoc :
    (ks : List Text) (j k : Text)
    → contains (ks ++ (j ∷ [])) k ≡ true
    → (contains ks k ≡ true) ⊎ (j ≡ k)
unfolding contains
contains-snoc [] j k h = inr (ground (arith, text_eq_iff j k))
contains-snoc (i ∷ ks) j k h = elim (Bool-cases (text_eq i k)) [
  | inl e ↦ inl (ground arith)
  | inr e ↦ elim (contains-snoc ks j k (ground arith)) [
    | inl a ↦ inl (ground arith)
    | inr b ↦ inr b
  ]
]

pub contains-add :
    (ks : List Text) (j k : Text)
    → contains (add_key ks j) k ≡ true
    → (contains ks k ≡ true) ⊎ (j ≡ k)
contains-add ks j k h = elim (Bool-cases (contains ks j)) [
  | inl e ↦ inl (ground arith)
  | inr e ↦ contains-snoc ks j k (ground arith)
]

pub add_keys-within :
    (known : Dict Text) (ks js : List Text)
    → Within (contains ks) known
    → Within (contains js) known
    → Within (contains (add_keys ks js)) known
unfolding contains
add_keys-within known ks [] w v = w
add_keys-within known ks (j ∷ js) w v =
    add_keys-within known (add_key ks j) js
      (λ k h. elim (contains-add ks j k h) [
        | inl a ↦ w k a
        | inr e ↦ v k (ground (arith, text_eq_iff j k))
      ])
      (λ k h. v k (ground arith))

-- The keys of a part of a dictionary are keys of the dictionary.
pub keep-Within :
    (p : Text × Text → Bool) (m : Dict Text) → Within (contains (Dict.keys (keep p m))) m
unfolding contains Dict.get
keep-Within p [] k h = h
keep-Within p ((j, v) ∷ m) k h = ground (arith, keep-Within p m k)

pub keys-Within : (m : Dict Text) → Within (contains (Dict.keys m)) m
unfolding contains Dict.get
keys-Within [] k h = h
keys-Within ((j, v) ∷ m) k h = ground (arith, keys-Within m k)
