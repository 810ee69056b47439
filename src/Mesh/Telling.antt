-- ===== src/Mesh/Telling.antt =====
-- Groups of different keys are always told apart.
use un_bien.Prelude.{
  ◌≡◌, refl, sym, ap, subst, ◌∙◌, inl, inr, ℕ, zero, suc, ◌+◌, ◌-◌, ◌≤◌, ◌<◌, true, false, ◌||◌,
  some, List, [], ◌∷◌, ◌++◌, map, Text, text_eq, text_eq_comm, text_eq_refl, if_elim, if_taken,
  ==_refl, arith, All, any, contains, length, take, Bool-cases, option_else-some,
}
use un_bien.Prelude.Dict
use un_bien.Prelude.Results.{ok}
use un_bien.Mesh.Aliases.{
  PreparedRoutingAlias, Allocation, candidates, is_free, enter_group, try_prefixes, enter_colliding,
  full_prefix_length,
}
use un_bien.Mesh.Unique.{Unique, Unique-size}
use un_bien.Mesh.Allocating.{contains-All, Tried, try_prefixes-Tried}
use un_bien.Mesh.Collisions.{
  Groups, is_tilde, Tilded, candidate-Tilde, enter_group-Tilded, candidates-Unique, Whole,
}

-- What makes a group one that its whole keys tell apart.
pub record Distinguished (n : ℕ) (e : Text × List PreparedRoutingAlias) : Type 0 where
  pub plain : any is_tilde e.0 ≡ false
  pub some_identity : 0 < length e.1
  pub whole : All (Whole n) e.1
  pub unique : Unique (map (λ (i : PreparedRoutingAlias). i.key_url) e.1)

seen : (b : Text) (done : List Text) → contains (b ∷ done) b ≡ true
unfolding contains
seen b done = rw (text_eq_refl b) refl

unseen :
    (b : Text) (es : Groups) (done : List Text)
    → All (λ (e : Text × List PreparedRoutingAlias). contains done e.0 ≡ false) es
    → All (λ (e : Text × List PreparedRoutingAlias). text_eq e.0 b ≡ false) es
    → All (λ (e : Text × List PreparedRoutingAlias). contains (b ∷ done) e.0 ≡ false) es
unfolding contains
unseen b [] done f n = tt
unseen b (e ∷ es) done f n = (ground (arith, text_eq_comm b e.0), unseen b es done f.1 n.1)

module _ (reserved : List Text)
    (plain : (t : Text) → contains reserved t ≡ true → any is_tilde t ≡ false) where
  untaken :
      (done : List Text) (a : Allocation) (b rest : Text)
      → any is_tilde b ≡ false
      → contains done b ≡ false
      → Tilded done a
      → (contains reserved (b ++ (b'~' ∷ rest))
          || contains a.allocated_aliases (b ++ (b'~' ∷ rest)))
        ≡ false
  untaken done a b rest p new w = elim (Bool-cases (contains reserved (b ++ (b'~' ∷ rest)))) [
    | inl kept ↦ absurd (cc (plain (b ++ (b'~' ∷ rest)) kept, (candidate-Tilde b rest p).0))
    | inr free ↦ elim (Bool-cases (contains a.allocated_aliases (b ++ (b'~' ∷ rest)))) [
      | inl taken ↦
          let held = w (b ++ (b'~' ∷ rest)) taken (candidate-Tilde b rest p).0 in
          absurd (cc (held, ap (contains done) (candidate-Tilde b rest p).1, new))
      | inr also ↦ rw free also
    ]
  ]

  none_taken :
      (done : List Text) (a : Allocation) (b : Text) (n : ℕ) (g : List PreparedRoutingAlias)
      → any is_tilde b ≡ false
      → contains done b ≡ false
      → Tilded done a
      → any (λ t. contains reserved t || contains a.allocated_aliases t) (candidates b n g) ≡ false
  none_taken done a b n [] p new w = refl
  none_taken done a b n (i ∷ g) p new w =
      rw (untaken done a b (take n i.key_url) p new w) (none_taken done a b n g p new w)

  whole-is_free :
      (done : List Text) (a : Allocation) (b : Text) (n : ℕ) (g : List PreparedRoutingAlias)
      → Distinguished n (b, g)
      → contains done b ≡ false
      → Tilded done a
      → is_free reserved a (candidates b n g) ≡ true
  unfolding is_free
  whole-is_free done a b n g d new w =
      rw
        (
          none_taken done a b n g d.plain new w,
          Unique-size (candidates b n g) (candidates-Unique b n g d.whole d.unique),
          ==_refl,
        )
        refl

  -- Where some prefix in reach is free, one is found.
  try_prefixes-some :
      (a : Allocation) (b : Text) (g : List PreparedRoutingAlias) (rounds n k : ℕ)
      → k < rounds
      → is_free reserved a (candidates b (n + k) g) ≡ true
      → (next : Allocation) × (try_prefixes reserved a b g rounds n ≡ some next)
  unfolding try_prefixes
  try_prefixes-some a b g zero n k h free = absurd (omega (arith, h))
  try_prefixes-some a b g (suc rounds) n zero h free =
      if_taken (λ o. (next : Allocation) × (o ≡ some next)) (is_free reserved a (candidates b n g))
        _ (at (n + 0) n (omega arith) free) (enter_group a b n g, refl)
    where
      at :
          (m m' : ℕ)
          → m ≡ m'
          → is_free reserved a (candidates b m g) ≡ true
          → is_free reserved a (candidates b m' g) ≡ true
      at m m' e f = subst (λ x. is_free reserved a (candidates b x g) ≡ true) e f
  try_prefixes-some a b g (suc rounds) n (suc k) h free =
      if_elim (λ o. (next : Allocation) × (o ≡ some next)) (is_free reserved a (candidates b n g))
        (λ _. (enter_group a b n g, refl))
        (λ _.
          try_prefixes-some a b g rounds (suc n) k (omega (arith, h))
            (at (n + suc k) (suc n + k) (omega arith) free))
    where
      at :
          (m m' : ℕ)
          → m ≡ m'
          → is_free reserved a (candidates b m g) ≡ true
          → is_free reserved a (candidates b m' g) ≡ true
      at m m' e f = subst (λ x. is_free reserved a (candidates b x g) ≡ true) e f

  full_prefix_length-Whole :
      (n : ℕ) (g : List PreparedRoutingAlias)
      → 0 < length g
      → All (Whole n) g
      → full_prefix_length g ≡ n
  full_prefix_length-Whole n [] h w = absurd (omega (arith, h))
  full_prefix_length-Whole n (i ∷ g) h w = w.0

  tried :
      (n : ℕ) (done : List Text) (a : Allocation) (b : Text) (g : List PreparedRoutingAlias)
      → 8 ≤ n
      → Distinguished n (b, g)
      → contains done b ≡ false
      → Tilded done a
      → (next : Allocation) × (try_prefixes reserved a b g (full_prefix_length g + 1 - 8) 8
          ≡ some next)
  tried n done a b g h d new w =
      try_prefixes-some a b g (full_prefix_length g + 1 - 8) 8 (n - 8)
        (omega (arith, full_prefix_length-Whole n g d.some_identity d.whole))
        (whole (8 + (n - 8)) (omega arith))
    where
      whole : (m : ℕ) → n ≡ m → is_free reserved a (candidates b m g) ≡ true
      whole m e =
          subst (λ x. is_free reserved a (candidates b x g) ≡ true) e
            (whole-is_free done a b n g d new w)

  more-Tilded : (done : List Text) (b : Text) (a : Allocation) → Tilded done a → Tilded (b ∷ done) a
  unfolding contains
  more-Tilded done b a w t taken tilde = ground (arith, w t taken tilde)

  -- No group is left that its whole keys would not tell apart from the aliases that are taken.
  pub enter_colliding-ok :
      (n : ℕ) (done : List Text) (a : Allocation) (es : Groups)
      → 8 ≤ n
      → All (Distinguished n) es
      → Unique (Dict.keys es)
      → All (λ (e : Text × List PreparedRoutingAlias). contains done e.0 ≡ false) es
      → Tilded done a
      → (a' : Allocation) × (enter_colliding reserved a es ≡ ok a')
  unfolding enter_colliding Tried
  enter_colliding-ok n done a [] h d u f w = (a, refl)
  enter_colliding-ok n done a ((b, g) ∷ es) h d u f w =
      let (next, found) = tried n done a b g h d.0 f.0 w in
      let (m, _, same) = try_prefixes-Tried reserved a b g _ _ next found in
      let (a', ends) =
        enter_colliding-ok n (b ∷ done) next es h d.1 u.1
          (unseen b es done f.1
            (contains-All (λ (e : Text × List PreparedRoutingAlias). e.0) es b u.0))
          (subst (Tilded (b ∷ done)) (sym same) (
            enter_group-Tilded (b ∷ done) a b m g d.0.plain (seen b done)
              (more-Tilded done b a w))) in
      (a', option_else-some _ _ _ next found ∙ ends)
