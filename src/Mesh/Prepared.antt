-- ===== src/Mesh/Prepared.antt =====
-- What the identities and the groups of `allocateRoutingAliases` are made of.
use un_bien.Prelude.{
  ◌≡◌, refl, subst, inl, inr, ℕ, zero, suc, Bool, true, false, ◌||◌, List, [], ◌∷◌, ◌++◌, Text,
  text_eq, eq_of_text_eq, if_elim, ◌==◌, arith, All, all, any, contains, length, take, keep,
  is_empty, Bool-cases,
}
use un_bien.Prelude.Dict
use un_bien.Prelude.Dict.{Dict}
use un_bien.Mesh.Aliases.{
  PreparedRoutingAlias, Allocation, candidate, is_routing_alias_safe_byte, enter_singles,
  enter_alias,
}
use un_bien.Mesh.Unique.{contains-add_text}
use un_bien.Mesh.Grouping.{has_base}
use un_bien.Mesh.Collisions.{Groups, is_tilde}

-- `[A-Za-z0-9._%-]`
abbrev pub is_base_character : ℕ → Bool
is_base_character c = is_routing_alias_safe_byte c || c == b'%'

-- What an alias is made of: no colon, in particular.
abbrev pub IsRoutingAlias : Text → Type 0
IsRoutingAlias s = (is_empty s ≡ false) × (all (λ c. is_base_character c || is_tilde c) s ≡ true)

pub record IsPrepared (i : PreparedRoutingAlias) : Type 0 where
  pub base_full : is_empty i.base ≡ false
  pub base_plain : all is_base_character i.base ≡ true
  pub key_plain : all is_base_character i.key_url ≡ true
  pub key_length : length i.key_url ≡ 43

pub weaken :
    (s : Text)
    → all is_base_character s ≡ true
    → all (λ c. is_base_character c || is_tilde c) s ≡ true
weaken [] h = refl
weaken (c ∷ s) h = ground (arith, weaken s)

pub no_tilde : (s : Text) → all is_base_character s ≡ true → any is_tilde s ≡ false
no_tilde [] h = refl
no_tilde (c ∷ s) h = ground (arith, no_tilde s)

pub all-append :
    (p : ℕ → Bool) (s t : Text) → all p s ≡ true → all p t ≡ true → all p (s ++ t) ≡ true
all-append p [] t h k = k
all-append p (c ∷ s) t h k = ground (arith, all-append p s t)

pub all-take : (p : ℕ → Bool) (n : ℕ) (s : Text) → all p s ≡ true → all p (take n s) ≡ true
all-take p zero s h = refl
all-take p (suc n) [] h = refl
all-take p (suc n) (c ∷ s) h = ground (arith, all-take p n s)

pub base-IsRoutingAlias : (i : PreparedRoutingAlias) → IsPrepared i → IsRoutingAlias i.base
base-IsRoutingAlias i w = (w.base_full, weaken i.base w.base_plain)

pub candidate-IsRoutingAlias :
    (n : ℕ) (i : PreparedRoutingAlias) → IsPrepared i → IsRoutingAlias (candidate i.base n i)
candidate-IsRoutingAlias n i w = (
  full i.base w.base_full,
  all-append (λ c. is_base_character c || is_tilde c) i.base (b'~' ∷ take n i.key_url)
      (weaken i.base w.base_plain)
      (weaken_tilde (take n i.key_url) (all-take is_base_character n i.key_url w.key_plain)),
)
  where
    full : (b : Text) → is_empty b ≡ false → is_empty (b ++ (b'~' ∷ take n i.key_url)) ≡ false
    full [] h = refl
    full (c ∷ b) h = refl

    weaken_tilde :
        (s : Text)
        → all is_base_character s ≡ true
        → all (λ c. is_base_character c || is_tilde c) (b'~' ∷ s) ≡ true
    weaken_tilde s h = rw (weaken s h) refl

pub All-map {ℓ κ ι} :
    {A : Type ℓ} (P : A → Type κ) (Q : A → Type ι) (xs : List A)
    → ((x : A) → P x → Q x)
    → All P xs
    → All Q xs
All-map P Q [] f a = tt
All-map P Q (x ∷ xs) f a = (f x a.0, All-map P Q xs f a.1)

pub All-both {ℓ κ ι} :
    {A : Type ℓ} (P : A → Type κ) (Q : A → Type ι) (xs : List A)
    → All P xs
    → All Q xs
    → All (λ x. P x × Q x) xs
All-both P Q [] a b = tt
All-both P Q (x ∷ xs) a b = ((a.0, b.0), All-both P Q xs a.1 b.1)

pub keep-kept {ℓ} : {A : Type ℓ} (p : A → Bool) (l : List A) → All (λ i. p i ≡ true) (keep p l)
keep-kept p [] = tt
keep-kept p (i ∷ l) =
    if_elim (All (λ j. p j ≡ true)) (p i) (λ h. (h, keep-kept p l)) (λ _. keep-kept p l)

pub All-has_base :
    (b : Text) (l : List PreparedRoutingAlias)
    → All (λ (i : PreparedRoutingAlias). i.base ≡ b) (keep (has_base b) l)
All-has_base b l =
    All-map _ _ (keep (has_base b) l) (λ i h. eq_of_text_eq i.base b h) (keep-kept (has_base b) l)

-- What holds of the keys of all entries holds of a key.
pub All-keys :
    (Q : Text → Type 0) (es : Groups) (t : Text)
    → All (λ (e : Text × List PreparedRoutingAlias). Q e.0) es
    → contains (Dict.keys es) t ≡ true
    → Q t
unfolding contains
All-keys Q [] t a h = absurd (cc)
All-keys Q (e ∷ es) t a h = elim (Bool-cases (text_eq e.0 t)) [
  | inl same ↦ subst Q (eq_of_text_eq e.0 t same) a.0
  | inr other ↦ All-keys Q es t a.1 (ground arith)
]

-- The aliases that are taken and have no tilde.
abbrev pub Plain : Allocation → Type 0
Plain a = (t : Text) → contains a.allocated_aliases t ≡ true → any is_tilde t ≡ false

pub enter_singles-Plain :
    (a : Allocation) (es : Groups)
    → All (λ (e : Text × List PreparedRoutingAlias). All IsPrepared e.1) es
    → Plain a
    → Plain (enter_singles a es)
unfolding enter_singles
enter_singles-Plain a [] w p = p
enter_singles-Plain a ((b, []) ∷ es) w p = enter_singles-Plain a es w.1 p
enter_singles-Plain a ((b, i ∷ []) ∷ es) w p =
    enter_singles-Plain (enter_alias a i i.base) es w.1 λ t h.
      elim (Bool-cases (text_eq i.base t)) [
        | inl same ↦
            subst (λ s. any is_tilde s ≡ false) (eq_of_text_eq i.base t same)
              (no_tilde i.base w.0.0.base_plain)
        | inr other ↦ p t (ground (arith, contains-add_text a.allocated_aliases i.base t))
      ]
enter_singles-Plain a ((b, i ∷ j ∷ g) ∷ es) w p = enter_singles-Plain a es w.1 p
