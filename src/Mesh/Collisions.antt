-- ===== src/Mesh/Collisions.antt =====
-- The groups of several identities: each of these is given an alias, and a prefix that tells a group
-- apart is always found, the whole keys at the latest.
use un_bien.Prelude.{
  ◌≡◌, refl, sym, ap, subst, ◌∙◌, inl, inr, ℕ, zero, suc, ◌+◌, ◌-◌, Bool, true, false, List, [],
  ◌∷◌, ◌++◌, map, Text, text_eq, eq_of_text_eq, if◌then◌else◌, ◌==◌, arith, All, any, contains,
  length, take, Bool-cases, option_elim,
}
use un_bien.Prelude.Dict.{Dict}
use un_bien.Prelude.Results.{ok}
use un_bien.Mesh.Aliases.{
  PreparedRoutingAlias, Allocation, enter_alias, enter_singles, candidate, candidates, enter_group,
  try_prefixes, enter_colliding, full_prefix_length, is_colliding,
}
use un_bien.Mesh.Unique.{Unique, contains-add_text}
use un_bien.Mesh.Allocating.{
  Sound, Has, Has-enter, Has-entered, free_group-Sound, Tried, try_prefixes-Tried,
}

abbrev pub Groups : Type 0
Groups = Dict (List PreparedRoutingAlias)

abbrev pub HasAll : Allocation → Text × List PreparedRoutingAlias → Type 0
HasAll a (b, g) = All (Has a) g

All-Has {ℓ} :
    {A : Type ℓ} (P Q : A → Type 0) (xs : List A) → ((x : A) → P x → Q x) → All P xs → All Q xs
All-Has P Q [] f a = tt
All-Has P Q (x ∷ xs) f a = (f x a.0, All-Has P Q xs f a.1)

enter_group-Keeps :
    (a : Allocation) (b : Text) (n : ℕ) (g : List PreparedRoutingAlias) (j : PreparedRoutingAlias)
    → Has a j
    → Has (enter_group a b n g) j
unfolding enter_group
enter_group-Keeps a b n [] j h = h
enter_group-Keeps a b n (i ∷ g) j h =
    enter_group-Keeps (enter_alias a i (candidate b n i)) b n g j
      (Has-enter a i j (candidate b n i) h)

enter_group-HasAll :
    (a : Allocation) (b : Text) (n : ℕ) (g : List PreparedRoutingAlias)
    → All (Has (enter_group a b n g)) g
unfolding enter_group
enter_group-HasAll a b n [] = tt
enter_group-HasAll a b n (i ∷ g) = (
  enter_group-Keeps (enter_alias a i (candidate b n i)) b n g i (Has-entered a i (candidate b n i)),
  enter_group-HasAll (enter_alias a i (candidate b n i)) b n g,
)

pub enter_singles-Keeps :
    (a : Allocation) (es : Groups) (j : PreparedRoutingAlias) → Has a j → Has (enter_singles a es) j
unfolding enter_singles
enter_singles-Keeps a [] j h = h
enter_singles-Keeps a ((b, []) ∷ es) j h = enter_singles-Keeps a es j h
enter_singles-Keeps a ((b, i ∷ []) ∷ es) j h =
    enter_singles-Keeps (enter_alias a i i.base) es j (Has-enter a i j i.base h)
enter_singles-Keeps a ((b, i ∷ k ∷ g) ∷ es) j h = enter_singles-Keeps a es j h

pub enter_singles-HasAll :
    (a : Allocation) (es : Groups)
    → All (λ e. is_colliding e ≡ false → HasAll (enter_singles a es) e) es
unfolding enter_singles
enter_singles-HasAll a [] = tt
enter_singles-HasAll a ((b, []) ∷ es) = ((λ _. tt), enter_singles-HasAll a es)
enter_singles-HasAll a ((b, i ∷ []) ∷ es) = (
  (λ _. (enter_singles-Keeps (enter_alias a i i.base) es i (Has-entered a i i.base), tt)),
  enter_singles-HasAll (enter_alias a i i.base) es,
)
enter_singles-HasAll a ((b, i ∷ k ∷ g) ∷ es) =
    ((λ h. absurd (ground arith)), enter_singles-HasAll a es)

-- What the loop over the colliding groups comes to.
pub record Entered (Good : Text → Type 0) (a : Allocation) (es : Groups) (a' : Allocation)
    : Type 0 where
  pub sound : Sound Good a'
  pub keeps : (j : PreparedRoutingAlias) → Has a j → Has a' j
  pub has : All (HasAll a') es

module _ (Good : Text → Type 0) (reserved : List Text) where
  abbrev pub Fine : Text × List PreparedRoutingAlias → Type 0
  Fine (b, g) = (n : ℕ) → All (λ i. Good (candidate b n i)) g

  pub enter_colliding-Entered :
      (a : Allocation) (es : Groups) (a' : Allocation)
      → Sound Good a
      → All Fine es
      → enter_colliding reserved a es ≡ ok a'
      → Entered Good a es a'
  unfolding enter_colliding Tried
  enter_colliding-Entered a [] a' w f h =
      let same : a ≡ a' = cc in
      record {
        sound = subst (Sound Good) same w;
        keeps = λ j k. subst (λ x. Has x j) same k;
        has = tt;
      }
  enter_colliding-Entered a ((b, g) ∷ es) a' w f h =
      option_elim (λ v. v ≡ ok a' → Entered Good a ((b, g) ∷ es) a')
        (try_prefixes reserved a b g (full_prefix_length g + 1 - 8) 8) (λ _ e. absurd (cc))
        (λ next found e.
          let (n, free, same) = try_prefixes-Tried reserved a b g _ _ next found in
          let now : Sound Good next =
            subst (Sound Good) (sym same) (free_group-Sound Good reserved a b n g w (f.0 n) free) in
          let rest = enter_colliding-Entered next es a' now f.1 e in
          record {
            sound = rest.sound;
            keeps = λ j k.
                rest.keeps j (subst (λ x. Has x j) (sym same) (enter_group-Keeps a b n g j k));
            has = (
              All-Has (Has next) (Has a') g rest.keeps
                  (subst (λ x. All (Has x) g) (sym same) (enter_group-HasAll a b n g)),
              rest.has,
            );
          })
        h

-- The tilde stands in no base, and behind the base in each candidate.
abbrev pub is_tilde : ℕ → Bool
is_tilde c = c == b'~'

unfoldable pub before_tilde : Text → Text
before_tilde [] = []
before_tilde (c ∷ s) = if is_tilde c then [] else c ∷ before_tilde s

pub candidate-Tilde :
    (b rest : Text)
    → any is_tilde b ≡ false
    → (any is_tilde (b ++ (b'~' ∷ rest)) ≡ true) × (before_tilde (b ++ (b'~' ∷ rest)) ≡ b)
unfolding before_tilde
candidate-Tilde [] rest h = (refl, refl)
candidate-Tilde (c ∷ b) rest h = ground (arith, candidate-Tilde b rest)

-- Of the aliases that are taken, those with a tilde come from groups that are done.
abbrev pub Tilded : List Text → Allocation → Type 0
Tilded done a =
    (t : Text)
    → contains a.allocated_aliases t ≡ true
    → any is_tilde t ≡ true
    → contains done (before_tilde t) ≡ true

enter-Tilded :
    (done : List Text) (a : Allocation) (i : PreparedRoutingAlias) (b rest : Text)
    → any is_tilde b ≡ false
    → contains done b ≡ true
    → Tilded done a
    → Tilded done (enter_alias a i (b ++ (b'~' ∷ rest)))
enter-Tilded done a i b rest plain has w t taken tilde =
    elim (Bool-cases (text_eq (b ++ (b'~' ∷ rest)) t)) [
      | inl same ↦
          subst (λ s. contains done (before_tilde s) ≡ true) (eq_of_text_eq _ t same)
            (ap (contains done) (candidate-Tilde b rest plain).1 ∙ has)
      | inr other ↦
          w t (ground (arith, contains-add_text a.allocated_aliases (b ++ (b'~' ∷ rest)) t)) tilde
    ]

pub enter_group-Tilded :
    (done : List Text) (a : Allocation) (b : Text) (n : ℕ) (g : List PreparedRoutingAlias)
    → any is_tilde b ≡ false
    → contains done b ≡ true
    → Tilded done a
    → Tilded done (enter_group a b n g)
unfolding enter_group
enter_group-Tilded done a b n [] plain has w = w
enter_group-Tilded done a b n (i ∷ g) plain has w =
    enter_group-Tilded done (enter_alias a i (candidate b n i)) b n g plain has
      (enter-Tilded done a i b (take n i.key_url) plain has w)

text_eq-prefix : (b s t : Text) → text_eq (b ++ s) (b ++ t) ≡ text_eq s t
unfolding text_eq
text_eq-prefix [] s t = refl
text_eq-prefix (c ∷ b) s t = ground (arith, text_eq-prefix b s t)

take_all : (s : Text) (n : ℕ) → length s ≡ n → take n s ≡ s
take_all [] zero h = refl
take_all [] (suc n) h = refl
take_all (c ∷ s) zero h = absurd (omega (arith, h))
take_all (c ∷ s) (suc n) h = ap (λ t. c ∷ t) (take_all s n (omega (arith, h)))

abbrev pub Whole : ℕ → PreparedRoutingAlias → Type 0
Whole n i = length i.key_url ≡ n

contains-candidates :
    (b : Text) (n : ℕ) (g : List PreparedRoutingAlias) (t : Text)
    → All (Whole n) g
    → contains (candidates b n g) (b ++ (b'~' ∷ t))
      ≡ contains (map (λ (i : PreparedRoutingAlias). i.key_url) g) t
unfolding contains text_eq
contains-candidates b n [] t a = refl
contains-candidates b n (i ∷ g) t a =
    rw
      (
        take_all i.key_url n a.0,
        text_eq-prefix b (b'~' ∷ i.key_url) (b'~' ∷ t),
        contains-candidates b n g t a.1,
      )
      refl

pub candidates-Unique :
    (b : Text) (n : ℕ) (g : List PreparedRoutingAlias)
    → All (Whole n) g
    → Unique (map (λ (i : PreparedRoutingAlias). i.key_url) g)
    → Unique (candidates b n g)
candidates-Unique b n [] a u = tt
candidates-Unique b n (i ∷ g) a u = (
  ap (λ t. contains (candidates b n g) (b ++ (b'~' ∷ t))) (take_all i.key_url n a.0)
      ∙ contains-candidates b n g i.key_url a.1
      ∙ u.0,
  candidates-Unique b n g a.1 u.1,
)
