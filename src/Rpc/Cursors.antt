-- ===== src/Rpc/Cursors.antt =====
-- Entries that their ids tell apart, and the cursors that the ids are.
use un_bien.Prelude.{
  truthy, ◌≡◌, refl, sym, ◌∙◌, ap, ℕ, ◌≤◌, false, Option, some, List, [], ◌∷◌, ◌++◌, Text, text_eq,
  arith, text_eq-false, text_eq_refl, if_taken, if_refused, option_elim, option_else, length, map,
  ◌≢◌, All,
}
use un_bien.Json.{Value}
use un_bien.Rpc.Fitting.{PortEntry, entry_id, fit_entry_for_transport}
use un_bien.Rpc.Pages.{has_id, after_entry, last_id, is_since, walk_on}
use un_bien.Rpc.Cutting.{fits}

-- An entry has an id, neither empty nor longer than 256 code units.
pub record Named (e : PortEntry) : Type 0 where
  pub id : Text
  pub has : entry_id e ≡ some id
  pub full : truthy (some id) ≡ some id
  pub short : length id ≤ 256

abbrev pub Other : PortEntry → PortEntry → Type 0
Other e d = entry_id d ≢ entry_id e

-- No two entries have the same id.
abbrev pub Apart : List PortEntry → Type 0
Apart [] = Unit
Apart (e ∷ es) = All (Other e) es × Apart es

pub All-append {ℓ κ} :
    {A : Type ℓ} (P : A → Type κ) (xs ys : List A) → All P (xs ++ ys) → All P xs × All P ys
All-append P [] ys a = (tt, a)
All-append P (x ∷ xs) ys a = let (b, c) = All-append P xs ys a.1 in ((a.0, b), c)

-- An entry in the middle is apart from those on both sides.
pub Apart-middle :
    (xs : List PortEntry) (e : PortEntry) (ys : List PortEntry)
    → Apart (xs ++ (e ∷ ys))
    → All (Other e) xs × All (Other e) ys
Apart-middle [] e ys a = (tt, a.0)
Apart-middle (x ∷ xs) e ys a =
    let (b, c) = Apart-middle xs e ys a.1 in
    let here = (All-append (Other x) xs (e ∷ ys) a.0).1 in (((λ same. here.0 (sym same)), b), c)

has_id_other : (i : Text) (e : PortEntry) → entry_id e ≢ some i → has_id i e ≡ false
has_id_other i e h =
    option_elim (λ b. b ≡ false) (entry_id e) (λ _. refl)
      λ j same. text_eq-false j i λ equal. h (same ∙ ap some equal)

pub after_entry-middle :
    (xs : List PortEntry) (e : PortEntry) (ys : List PortEntry) (i : Text)
    → entry_id e ≡ some i
    → All (Other e) xs
    → after_entry (xs ++ (e ∷ ys)) i ≡ some ys
unfolding after_entry
after_entry-middle [] e ys i h a =
    if_taken (λ o. o ≡ some ys) (has_id i e) _
      (ap (λ o. option_else o false (λ j. text_eq j i)) h ∙ text_eq_refl i) refl
after_entry-middle (x ∷ xs) e ys i h a =
    if_refused (λ o. o ≡ some ys) (has_id i x) _ (has_id_other i x λ same. a.0 (same ∙ sym h))
      (after_entry-middle xs e ys i h a.1)

pub last_id-snoc : (xs : List PortEntry) (e : PortEntry) → last_id (xs ++ (e ∷ [])) ≡ entry_id e
unfolding last_id
last_id-snoc [] e = refl
last_id-snoc (x ∷ []) e = refl
last_id-snoc (x ∷ y ∷ xs) e = last_id-snoc (y ∷ xs) e

-- A list that is not empty ends in an entry.
snoc-view :
    (e : PortEntry) (es : List PortEntry)
    → (init : List PortEntry) × ((l : PortEntry) × (e ∷ es ≡ init ++ (l ∷ [])))
snoc-view e [] = ([], (e, refl))
snoc-view e (f ∷ es) = let (init, (l, h)) = snoc-view f es in (e ∷ init, (l, ap (λ xs. e ∷ xs) h))

-- A page that has an entry ends in one.
pub front-view :
    (size : Value → ℕ) (e : PortEntry) (front ps : List PortEntry)
    → fits size front ≡ fit_entry_for_transport size e ∷ ps
    → (init : List PortEntry) × ((l : PortEntry) × (front ≡ init ++ (l ∷ [])))
front-view size e [] ps h = absurd (cc)
front-view size e (f ∷ fs) ps h = snoc-view f fs

pub walk_on-more :
    (e : PortEntry) (page more : List PortEntry) (i : Text) (since : Option Text)
    → is_since since i ≡ false
    → walk_on (e ∷ page) (some i) since more ≡ (e ∷ page) ++ more
unfolding walk_on
walk_on-more e page more i since h =
    if_refused (λ xs. xs ≡ (e ∷ page) ++ more) (is_since since i) _ h refl

pub map-append :
    {A B : Type 0} (f : A → B) (xs ys : List A) → map f (xs ++ ys) ≡ map f xs ++ map f ys
map-append f [] ys = refl
map-append f (x ∷ xs) ys = ap (λ zs. f x ∷ zs) (map-append f xs ys)

pub length-map : {A B : Type 0} (f : A → B) (xs : List A) → length (map f xs) ≡ length xs
length-map f [] = refl
length-map f (x ∷ xs) = omega (arith, length-map f xs)

pub length-none : {A : Type 0} (xs : List A) → length xs ≡ 0 → xs ≡ []
length-none [] h = refl
length-none (x ∷ xs) h = absurd (omega arith)
