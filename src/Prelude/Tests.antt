-- ===== src/Prelude/Tests.antt =====
-- Boolean tests on the native numbers, the conditional, and case splits that keep the equation.
use Prim.Native.Nat.{ℕ, ◌≤◌, ◌<◌, compare, Ordering}
use mathlib.Core.Path.{◌≡◌, refl, sym, subst}
use mathlib.Core.Logic.{◌↔◌, ◌⊎◌, inl, inr}
use mathlib.Core.Bool.{Bool, true, false, false≢true}
use mathlib.Core.Option.{Option, none, some}
use native.Mathlib.Omega.{arith}

abbrev pub ltb : ℕ → ℕ → Bool
ltb a b = elim (compare a b) [ Ordering.lt ↦ true | _ ↦ false ]

abbrev pub leb : ℕ → ℕ → Bool
leb a b = elim (compare a b) [ Ordering.gt ↦ false | _ ↦ true ]

infix 50 ◌==◌
abbrev pub ◌==◌ : ℕ → ℕ → Bool
a == b = elim (compare a b) [ Ordering.eq ↦ true | _ ↦ false ]

infix 1 if◌then◌else◌
abbrev pub if◌then◌else◌ {ℓ} : {A : Type ℓ} → Bool → A → A → A
if true then x else y = x
if false then x else y = y

pub ltb→lt : (a b : ℕ) → ltb a b ≡ true → a < b
ltb→lt a b h = ground arith

pub lt→ltb : (a b : ℕ) → a < b → ltb a b ≡ true
lt→ltb a b h = ground arith

pub leb→le : (a b : ℕ) → leb a b ≡ true → a ≤ b
leb→le a b h = ground arith

pub le→leb : (a b : ℕ) → a ≤ b → leb a b ≡ true
le→leb a b h = ground arith

pub ==_iff : (a b : ℕ) → ((a == b) ≡ true) ↔ (a ≡ b)
==_iff a b = ground arith

pub ==_refl : (a : ℕ) → (a == a) ≡ true
==_refl a = ground arith

pub Bool-cases : (b : Bool) → (b ≡ true) ⊎ (b ≡ false)
Bool-cases true = inl refl
Bool-cases false = inr refl

pub Option-cases {ℓ} : {A : Type ℓ} (o : Option A) → (o ≡ none) ⊎ ((a : A) × (o ≡ some a))
Option-cases none = inl refl
Option-cases (some a) = inr (a, refl)

-- `o?.f() ?? d`
abbrev pub option_else {ℓ κ} : {A : Type ℓ} {B : Type κ} → Option A → B → (A → B) → B
option_else none d f = d
option_else (some a) d f = f a

abbrev pub is_some {ℓ} : {A : Type ℓ} → Option A → Bool
is_some none = false
is_some (some a) = true

-- What holds on both branches of a test, or of a read, holds of the whole.
pub if_elim {ℓ κ} :
    {A : Type ℓ} (P : A → Type κ) (t : Bool) {x y : A}
    → (t ≡ true → P x)
    → (t ≡ false → P y)
    → P (if t then x else y)
if_elim P true h k = h refl
if_elim P false h k = k refl

pub option_elim {ℓ κ ι} :
    {A : Type ℓ} {B : Type κ} (P : B → Type ι) (o : Option A) {d : B} {f : A → B}
    → (o ≡ none → P d)
    → ((a : A) → o ≡ some a → P (f a))
    → P (option_else o d f)
option_elim P none h k = h refl
option_elim P (some a) h k = k a refl

pub option_else-some {ℓ κ} :
    {A : Type ℓ} {B : Type κ} (o : Option A) (d : B) (f : A → B) (a : A)
    → o ≡ some a
    → option_else o d f ≡ f a
option_else-some o d f a h = rw (h) refl

-- What relates the branches of two tests of the same relates the two.
pub if_both {ℓ κ ι} :
    {A : Type ℓ} {B : Type κ} (P : A → B → Type ι) (t : Bool) {x x' : A} {y y' : B}
    → (t ≡ true → P x y)
    → (t ≡ false → P x' y')
    → P (if t then x else x') (if t then y else y')
if_both P true h k = h refl
if_both P false h k = k refl

-- What holds on the branch that is taken holds of the whole.
pub if_taken {ℓ κ} :
    {A : Type ℓ} (P : A → Type κ) (t : Bool) {x : A} (y : A)
    → t ≡ true
    → P x
    → P (if t then x else y)
if_taken P true y e p = p
if_taken P false y e p = absurd (false≢true e)

pub if_refused {ℓ κ} :
    {A : Type ℓ} (P : A → Type κ) (t : Bool) (x : A) {y : A}
    → t ≡ false
    → P y
    → P (if t then x else y)
if_refused P true x e p = absurd (false≢true (sym e))
if_refused P false x e p = p

pub option_taken {ℓ κ ι} :
    {A : Type ℓ} {B : Type κ} (P : B → Type ι) (o : Option A) (d : B) (f : A → B) (a : A)
    → o ≡ some a
    → P (f a)
    → P (option_else o d f)
option_taken P o d f a e p = subst P (sym (option_else-some o d f a e)) p
