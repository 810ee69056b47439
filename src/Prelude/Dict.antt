-- ===== src/Prelude/Dict.antt =====
-- JavaScript's `Map` with text keys: entries in insertion order, one for each key. `set` keeps the
-- place of a key that is there and appends one that is new.
use un_bien.Prelude.Tests.{if◌then◌else◌, is_some}
use un_bien.Prelude.Lists.{length, All}
use un_bien.Prelude.Texts.{Text, text_eq, text_eq_iff, text_eq_refl}
use Prim.Native.Nat.{◌+◌, ◌≤◌, ◌<◌}
use mathlib.Core.Path.{◌≡◌, refl}
use mathlib.Core.Bool.{Bool}
use mathlib.Core.List.{List, [], ◌∷◌, map}
use mathlib.Core.Option.{Option, none, some}
use native.Mathlib.Omega.{arith}

abbrev pub Dict {ℓ} : Type ℓ → Type ℓ
Dict V = List (Text × V)

module _ {ℓ} {V : Type ℓ} where
  unfoldable pub get : Dict V → Text → Option V
  get [] k = none
  get ((j, v) ∷ m) k = if text_eq j k then some v else get m k

  abbrev pub has : Dict V → Text → Bool
  has m k = is_some (get m k)

  unfoldable pub set : Dict V → Text → V → Dict V
  set [] k v = (k, v) ∷ []
  set ((j, w) ∷ m) k v = if text_eq j k then (j, v) ∷ m else (j, w) ∷ set m k v

  unfoldable pub delete : Dict V → Text → Dict V
  delete [] k = []
  delete ((j, w) ∷ m) k = if text_eq j k then delete m k else (j, w) ∷ delete m k

  abbrev pub keys : Dict V → List Text
  keys = map (λ e. e.0)

  abbrev pub values : Dict V → List V
  values = map (λ e. e.1)

  pub get-set :
      (m : Dict V) (k j : Text) (v : V)
      → get (set m k v) j ≡ (if text_eq k j then some v else get m j)
  unfolding get set
  get-set [] k j v = refl
  get-set ((i, w) ∷ m) k j v =
      ground (arith, text_eq_iff k j, text_eq_iff i k, text_eq_iff i j, get-set m k j v)

  pub get-delete :
      (m : Dict V) (k j : Text) → get (delete m k) j ≡ (if text_eq k j then none else get m j)
  unfolding get delete
  get-delete [] k j = ground arith
  get-delete ((i, w) ∷ m) k j =
      ground (arith, text_eq_iff k j, text_eq_iff i k, text_eq_iff i j, get-delete m k j)

  pub get-set_self : (m : Dict V) (k : Text) (v : V) → get (set m k v) k ≡ some v
  get-set_self m k v = ground (arith, get-set m k k v, text_eq_refl k)

  pub get-delete_self : (m : Dict V) (k : Text) → get (delete m k) k ≡ none
  get-delete_self m k = ground (arith, get-delete m k k, text_eq_refl k)

  pub length-set :
      (m : Dict V) (k : Text) (v : V)
      → length (set m k v) ≡ (if has m k then length m else length m + 1)
  unfolding get set
  length-set [] k v = omega arith
  length-set ((i, w) ∷ m) k v = ground (arith, length-set m k v)

  pub length-delete-le : (m : Dict V) (k : Text) → length (delete m k) ≤ length m
  unfolding delete
  length-delete-le [] k = omega arith
  length-delete-le ((i, w) ∷ m) k = ground (arith, length-delete-le m k)

  pub length-delete-lt :
      (m : Dict V) (k : Text) (v : V) → get m k ≡ some v → length (delete m k) < length m
  unfolding get delete
  length-delete-lt [] k v h = ground arith
  length-delete-lt ((i, w) ∷ m) k v h = ground (arith, length-delete-le m k, length-delete-lt m k v)

  -- One entry for each key.
  abbrev pub Distinct : Dict V → Type ℓ
  Distinct [] = Unit
  Distinct (e ∷ m) = (get m e.0 ≡ none) × Distinct m

  pub set-Distinct : (m : Dict V) (k : Text) (v : V) → Distinct m → Distinct (set m k v)
  unfolding set get
  set-Distinct [] k v d = (refl, tt)
  set-Distinct ((i, w) ∷ m) k v d =
      ground (arith, set-Distinct m k v d.1, get-set m k i v, text_eq_iff k i, text_eq_iff i k)

  pub delete-Distinct : (m : Dict V) (k : Text) → Distinct m → Distinct (delete m k)
  unfolding delete get
  delete-Distinct [] k d = tt
  delete-Distinct ((i, w) ∷ m) k d =
      ground (arith, delete-Distinct m k d.1, get-delete m k i, text_eq_iff k i, text_eq_iff i k)

  -- What holds of every entry that `get` finds holds of all entries.
  pub All-of_get {κ} :
      (P : Text × V → Type κ) (m : Dict V)
      → Distinct m
      → ((k : Text) (v : V) → get m k ≡ some v → P (k, v))
      → All P m
  All-of_get P [] d h = tt
  All-of_get P ((i, w) ∷ m) d h = (h i w here, All-of_get P m d.1 λ k v e. h k v (there k v e))
    where
      here : get ((i, w) ∷ m) i ≡ some w
      here = unfold get in rw text_eq_refl

      there : (k : Text) (v : V) → get m k ≡ some v → get ((i, w) ∷ m) k ≡ some v
      there k v e = unfold get in ground (arith, text_eq_iff i k, d.0)

  pub get-All {κ} :
      (P : Text × V → Type κ) (m : Dict V) (k : Text) (v : V)
      → All P m
      → get m k ≡ some v
      → P (k, v)
  unfolding get
  get-All P [] k v a h = cc
  get-All P ((i, w) ∷ m) k v a h = ground (arith, text_eq_iff i k, get-All P m k v)
