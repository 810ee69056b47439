-- ===== src/Mesh/Unique.antt =====
-- Texts that stand once in a list, under a sort, a filter and a `Set`.
use un_bien.Prelude.{
  ◌≡◌, refl, ap, ◌∙◌, inl, inr, ◌+◌, ◌≤◌, Bool, true, false, ◌||◌, List, [], ◌∷◌, ◌++◌, map, Text,
  text_eq, text_eq_comm, text_eq_iff, text_lt, if_elim, arith, All, length, length-append, contains,
  keep, insert_by, sort_by, Bool-cases,
}
use un_bien.Mesh.Aliases.{add_text, add_texts}

abbrev pub Unique : List Text → Type 0
Unique [] = Unit
Unique (t ∷ ts) = (contains ts t ≡ false) × Unique ts

pub contains-append :
    (ss ts : List Text) (t : Text) → contains (ss ++ ts) t ≡ (contains ss t || contains ts t)
unfolding contains
contains-append [] ts t = refl
contains-append (s ∷ ss) ts t = ground (arith, contains-append ss ts t)

pub contains-add_text :
    (set : List Text) (s t : Text) → contains (add_text set s) t ≡ (text_eq s t || contains set t)
unfolding contains
contains-add_text set s t = ground (arith, contains-append set (s ∷ []) t, text_eq_iff s t)

-- What is not among the texts differs from each of them.
not-contains :
    (ts : List Text) (t : Text) → All (λ s. text_eq s t ≡ false) ts → contains ts t ≡ false
unfolding contains
not-contains [] t a = refl
not-contains (s ∷ ts) t a = ground (arith, not-contains ts t a.1)

length-add_texts-le : (set ts : List Text) → length (add_texts set ts) ≤ length set + length ts
unfolding add_texts
length-add_texts-le set [] = omega arith
length-add_texts-le set (t ∷ ts) = ground (
  arith,
  length-add_texts-le set ts,
  length-add_texts-le (set ++ (t ∷ [])) ts,
  length-append set (t ∷ []),
)

abbrev Fresh : List Text → List Text → Type 0
Fresh set ts = All (λ t. contains set t ≡ false) ts

Fresh-smaller :
    (set : List Text) (s : Text) (ts : List Text)
    → Fresh (set ++ (s ∷ [])) ts
    → Fresh set ts × All (λ t. text_eq t s ≡ false) ts
unfolding contains
Fresh-smaller set s [] a = (tt, tt)
Fresh-smaller set s (t ∷ ts) a =
    ground (arith, contains-append set (s ∷ []) t, text_eq_comm s t, Fresh-smaller set s ts a.1)

-- A set that has grown by each of the texts had none of them, and no two are the same.
add_texts-Unique :
    (set ts : List Text)
    → length (add_texts set ts) ≡ length set + length ts
    → Fresh set ts × Unique ts
unfolding add_texts
add_texts-Unique set [] h = (tt, tt)
add_texts-Unique set (t ∷ ts) h = elim (Bool-cases (contains set t)) [
  | inl old ↦ absurd (ground (arith, length-add_texts-le set ts))
  | inr new ↦
      let grown =
        add_texts-Unique (set ++ (t ∷ [])) ts (ground (arith, length-append set (t ∷ []))) in
      let (fresh, apart) = Fresh-smaller set t ts grown.0 in
      ((new, fresh), (not-contains ts t apart, grown.1))
]

pub size-Unique : (ts : List Text) → length (add_texts [] ts) ≡ length ts → Unique ts
size-Unique ts h = (add_texts-Unique [] ts (omega (arith, h))).1

Fresh-bigger :
    (set : List Text) (s : Text) (ts : List Text)
    → contains ts s ≡ false
    → Fresh set ts
    → Fresh (set ++ (s ∷ [])) ts
unfolding contains
Fresh-bigger set s [] n a = tt
Fresh-bigger set s (t ∷ ts) n a =
    ground (arith, contains-append set (s ∷ []) t, text_eq_comm s t, Fresh-bigger set s ts)

length-add_texts :
    (set ts : List Text)
    → Fresh set ts
    → Unique ts
    → length (add_texts set ts) ≡ length set + length ts
unfolding add_texts
length-add_texts set [] f u = omega arith
length-add_texts set (t ∷ ts) f u = ground (
  arith,
  length-add_texts (set ++ (t ∷ [])) ts (Fresh-bigger set t ts u.0 f.1) u.1,
  length-append set (t ∷ []),
)

pub Unique-size : (ts : List Text) → Unique ts → length (add_texts [] ts) ≡ length ts
unfolding contains
Unique-size ts u = omega (arith, length-add_texts [] ts (all_fresh ts) u)
  where
    all_fresh : (ss : List Text) → Fresh [] ss
    all_fresh [] = tt
    all_fresh (s ∷ ss) = (refl, all_fresh ss)

module _ {ℓ} {A : Type ℓ} (key f : A → Text) where
  contains-insert :
      (x : A) (xs : List A) (t : Text)
      → contains (map f (insert_by key x xs)) t ≡ (text_eq (f x) t || contains (map f xs) t)
  unfolding insert_by contains
  contains-insert x [] t = refl
  contains-insert x (y ∷ ys) t = ground (arith, contains-insert x ys t)

  insert-Unique :
      (x : A) (xs : List A)
      → contains (map f xs) (f x) ≡ false
      → Unique (map f xs)
      → Unique (map f (insert_by key x xs))
  unfolding insert_by contains
  insert-Unique x [] n u = (refl, tt)
  insert-Unique x (y ∷ ys) n u =
      ground (arith, contains-insert x ys (f y), insert-Unique x ys, text_eq_comm (f x) (f y))

  pub contains-sort :
      (xs : List A) (t : Text) → contains (map f (sort_by key xs)) t ≡ contains (map f xs) t
  unfolding sort_by contains
  contains-sort [] t = refl
  contains-sort (x ∷ xs) t =
      contains-insert x (sort_by key xs) t ∙ ap (λ b. text_eq (f x) t || b) (contains-sort xs t)

  pub sort-Unique : (xs : List A) → Unique (map f xs) → Unique (map f (sort_by key xs))
  unfolding sort_by
  sort-Unique [] u = tt
  sort-Unique (x ∷ xs) u =
      insert-Unique x (sort_by key xs) (contains-sort xs (f x) ∙ u.0) (sort-Unique xs u.1)

module _ {ℓ} {A : Type ℓ} (f : A → Text) (p : A → Bool) where
  contains-keep :
      (xs : List A) (t : Text)
      → contains (map f xs) t ≡ false
      → contains (map f (keep p xs)) t ≡ false
  unfolding contains
  contains-keep [] t n = refl
  contains-keep (x ∷ xs) t n = ground (arith, contains-keep xs t)

  pub keep-Unique : (xs : List A) → Unique (map f xs) → Unique (map f (keep p xs))
  keep-Unique [] u = tt
  keep-Unique (x ∷ xs) u =
      if_elim (λ ys. Unique (map f ys)) (p x)
        (λ _. (contains-keep xs (f x) u.0, keep-Unique xs u.1)) (λ _. keep-Unique xs u.1)

module _ {ℓ κ} {A : Type ℓ} (P : A → Type κ) where
  insert-All : (key : A → Text) (x : A) (xs : List A) → P x → All P xs → All P (insert_by key x xs)
  unfolding insert_by
  insert-All key x [] h a = (h, tt)
  insert-All key x (y ∷ ys) h a =
      if_elim (All P) (text_lt (key y) (key x)) (λ _. (a.0, insert-All key x ys h a.1))
        (λ _. (h, a))

  pub sort-All : (key : A → Text) (xs : List A) → All P xs → All P (sort_by key xs)
  unfolding sort_by
  sort-All key [] a = tt
  sort-All key (x ∷ xs) a = insert-All key x (sort_by key xs) a.0 (sort-All key xs a.1)

  All-insert : (key : A → Text) (x : A) (xs : List A) → All P (insert_by key x xs) → P x × All P xs
  unfolding insert_by
  All-insert key x [] a = a
  All-insert key x (y ∷ ys) b =
      if_elim (λ zs. All P zs → P x × All P (y ∷ ys)) (text_lt (key y) (key x))
        (λ _ a. let (h, rest) = All-insert key x ys a.1 in (h, (a.0, rest))) (λ _ a. a) b

  pub All-sort : (key : A → Text) (xs : List A) → All P (sort_by key xs) → All P xs
  unfolding sort_by
  All-sort key [] a = tt
  All-sort key (x ∷ xs) a =
      let (h, rest) = All-insert key x (sort_by key xs) a in (h, All-sort key xs rest)

  pub keep-All : (p : A → Bool) (xs : List A) → All P xs → All P (keep p xs)
  keep-All p [] a = tt
  keep-All p (x ∷ xs) a =
      if_elim (All P) (p x) (λ _. (a.0, keep-All p xs a.1)) (λ _. keep-All p xs a.1)

  pub All-keep : (p : A → Bool) (xs : List A) → All P (keep p xs) → All (λ x. p x ≡ true → P x) xs
  All-keep p [] a = tt
  All-keep p (x ∷ xs) b =
      if_elim (λ ys. All P ys → All (λ y. p y ≡ true → P y) (x ∷ xs)) (p x)
        (λ _ a. ((λ _. a.0), All-keep p xs a.1)) (λ n a. ((λ h. absurd (cc)), All-keep p xs a)) b
