-- ===== src/Address/Safety.antt =====
-- What `sanitizeSegment` (extension/src/session/local_config.ts) lets through.
use un_bien.Prelude.{
  ◌≡◌, refl, subst, ℕ, Bool, true, false, ◌&&◌, Text, [], ◌∷◌, some, arith, All, Bool-cases, inl,
  inr, if◌then◌else◌,
}
use un_bien.Address.{
  is_space, is_separator, trim_start, trim_end, dash_separators, squeeze_dashes, clean_token,
  is_reserved, usable_token, sanitize_segment, squeezed, cons_unless_last, is_dash,
}

abbrev pub IsClean : ℕ → Type 0
IsClean c = is_separator c ≡ false

abbrev pub StartsNot : (ℕ → Bool) → Text → Type 0
StartsNot p [] = Unit
StartsNot p (c ∷ s) = p c ≡ false

abbrev pub EndsNot : (ℕ → Bool) → Text → Type 0
EndsNot p [] = Unit
EndsNot p (c ∷ []) = p c ≡ false
EndsNot p (c ∷ d ∷ s) = EndsNot p (d ∷ s)

-- No two dashes stand side by side.
abbrev pub SingleDashes : Text → Type 0
SingleDashes [] = Unit
SingleDashes (c ∷ []) = Unit
SingleDashes (c ∷ d ∷ s) = ((is_dash c && is_dash d) ≡ false) × SingleDashes (d ∷ s)

-- A leaf name that an address can be composed of.
pub record IsSegment (s : Text) : Type 0 where
  pub clean : All IsClean s
  pub first : StartsNot is_dash s
  pub last : EndsNot is_dash s
  pub single : SingleDashes s
  pub free : is_reserved s ≡ false

dash-IsClean : IsClean b'-'
unfolding is_separator
dash-IsClean = refl

dash_separators-IsClean : (b : Bool) (s : Text) → All IsClean (dash_separators b s)
unfolding dash_separators
dash_separators-IsClean b [] = tt
dash_separators-IsClean b (c ∷ s) = elim (Bool-cases (is_separator c)) [
  | inl e ↦ rw e (in_run b (dash_separators true s) (dash_separators-IsClean true s))
  | inr e ↦ rw e (e, dash_separators-IsClean false s)
]
  where
    in_run : (b : Bool) (t : Text) → All IsClean t → All IsClean (if b then t else b'-' ∷ t)
    in_run true t h = h
    in_run false t h = (dash-IsClean, h)

trim_start-All {ℓ} : (P : ℕ → Type ℓ) (p : ℕ → Bool) (s : Text) → All P s → All P (trim_start p s)
unfolding trim_start
trim_start-All P p [] h = tt
trim_start-All P p (c ∷ s) h = elim (Bool-cases (p c)) [
  | inl e ↦ rw e (trim_start-All P p s h.1)
  | inr e ↦ rw e h
]

cons_unless_last-All {ℓ} :
    (P : ℕ → Type ℓ) (b : Bool) (c : ℕ) (s : Text) → P c → All P s → All P (cons_unless_last b c s)
cons_unless_last-All P true c [] p h = tt
cons_unless_last-All P false c [] p h = (p, tt)
cons_unless_last-All P true c (d ∷ s) p h = (p, h)
cons_unless_last-All P false c (d ∷ s) p h = (p, h)

trim_end-All {ℓ} : (P : ℕ → Type ℓ) (p : ℕ → Bool) (s : Text) → All P s → All P (trim_end p s)
unfolding trim_end
trim_end-All P p [] h = tt
trim_end-All P p (c ∷ s) h =
    cons_unless_last-All P (p c) c (trim_end p s) h.0 (trim_end-All P p s h.1)

squeeze-All {ℓ} : (P : ℕ → Type ℓ) (b : Bool) (s : Text) → All P s → All P (squeeze_dashes b s)
unfolding squeeze_dashes
squeeze-All P b [] h = tt
squeeze-All P b (c ∷ s) h = elim (Bool-cases (is_dash c && b)) [
  | inl e ↦ rw e (squeeze-All P (is_dash c) s h.1)
  | inr e ↦ rw e (h.0, squeeze-All P (is_dash c) s h.1)
]

trim_start-StartsNot : (p : ℕ → Bool) (s : Text) → StartsNot p (trim_start p s)
unfolding trim_start
trim_start-StartsNot p [] = tt
trim_start-StartsNot p (c ∷ s) = elim (Bool-cases (p c)) [
  | inl e ↦ rw e (trim_start-StartsNot p s)
  | inr e ↦ rw e e
]

trim_end-EndsNot : (p : ℕ → Bool) (s : Text) → EndsNot p (trim_end p s)
unfolding trim_end
trim_end-EndsNot p [] = tt
trim_end-EndsNot p (c ∷ s) = ends (p c) refl (trim_end p s) (trim_end-EndsNot p s)
  where
    ends : (b : Bool) → p c ≡ b → (t : Text) → EndsNot p t → EndsNot p (cons_unless_last b c t)
    ends true e [] h = tt
    ends false e [] h = e
    ends true e (d ∷ t) h = h
    ends false e (d ∷ t) h = h

trim_end-starts : (p q : ℕ → Bool) (s : Text) → StartsNot q s → StartsNot q (trim_end p s)
unfolding trim_end
trim_end-starts p q [] h = tt
trim_end-starts p q (c ∷ s) h = starts (p c) (trim_end p s)
  where
    starts : (b : Bool) (t : Text) → StartsNot q (cons_unless_last b c t)
    starts true [] = tt
    starts false [] = h
    starts true (d ∷ t) = h
    starts false (d ∷ t) = h

-- After a dash no dash follows.
abbrev pub Follows : Bool → Text → Type 0
Follows true s = StartsNot is_dash s
Follows false s = Unit

single_cons :
    (c : ℕ) (t : Text)
    → SingleDashes t
    → (is_dash c ≡ true → StartsNot is_dash t)
    → SingleDashes (c ∷ t)
single_cons c [] h k = tt
single_cons c (d ∷ t) h k = (pair (is_dash c) (is_dash d) k, h)
  where
    pair : (x y : Bool) → (x ≡ true → y ≡ false) → (x && y) ≡ false
    pair true y k = k refl
    pair false y k = refl

squeeze-single :
    (b : Bool) (s : Text) → SingleDashes (squeeze_dashes b s) × Follows b (squeeze_dashes b s)
unfolding squeeze_dashes
squeeze-single true [] = (tt, tt)
squeeze-single false [] = (tt, tt)
squeeze-single b (c ∷ s) =
    step b (is_dash c) (squeeze_dashes (is_dash c) s) refl (squeeze-single (is_dash c) s)
  where
    step :
        (b d : Bool) (t : Text)
        → is_dash c ≡ d
        → SingleDashes t × Follows d t
        → SingleDashes (if d && b then t else c ∷ t) × Follows b (if d && b then t else c ∷ t)
    step true true t e h = h
    step false true t e h = (single_cons c t h.0 (λ _. h.1), tt)
    step true false t e h = (single_cons c t h.0 (λ k. absurd (ground arith)), e)
    step false false t e h = (single_cons c t h.0 (λ k. absurd (ground arith)), tt)

trim_start-single : (s : Text) → SingleDashes s → SingleDashes (trim_start is_dash s)
unfolding trim_start
trim_start-single [] h = tt
trim_start-single (c ∷ []) h = ground arith
trim_start-single (c ∷ d ∷ s) h = elim (Bool-cases (is_dash c)) [
  | inl e ↦ rw e (trim_start-single (d ∷ s) h.1)
  | inr e ↦ rw e h
]

trim_end-single : (s : Text) → SingleDashes s → SingleDashes (trim_end is_dash s)
unfolding trim_end
trim_end-single [] h = tt
trim_end-single (c ∷ s) h =
    ends (is_dash c) (trim_end is_dash s) (trim_end-single s (rest s h))
      λ e. trim_end-starts is_dash is_dash s (next s h e)
  where
    rest : (s : Text) → SingleDashes (c ∷ s) → SingleDashes s
    rest [] h = tt
    rest (d ∷ s) h = h.1

    next : (s : Text) → SingleDashes (c ∷ s) → is_dash c ≡ true → StartsNot is_dash s
    next [] h e = tt
    next (d ∷ s) h e = rw e at (h.0)

    ends :
        (b : Bool) (t : Text)
        → SingleDashes t
        → (is_dash c ≡ true → StartsNot is_dash t)
        → SingleDashes (cons_unless_last b c t)
    ends true [] h k = tt
    ends false [] h k = tt
    ends true (d ∷ t) h k = single_cons c (d ∷ t) h k
    ends false (d ∷ t) h k = single_cons c (d ∷ t) h k

clean_token-IsClean : (v : Text) → All IsClean (clean_token v)
unfolding clean_token
clean_token-IsClean v = trim_end-All IsClean is_dash (trim_start is_dash (squeezed v)) (
    trim_start-All IsClean is_dash (squeezed v) (
      squeeze-All IsClean false (dash_separators false words)
        (dash_separators-IsClean false words)))
  where
    words : Text
    words = trim_end is_space (trim_start is_space v)

clean_token-ends :
    (v : Text)
    → StartsNot is_dash (clean_token v)
      × EndsNot is_dash (clean_token v)
      × SingleDashes (clean_token v)
unfolding clean_token
clean_token-ends v = (
  trim_end-starts is_dash is_dash (trim_start is_dash (squeezed v))
      (trim_start-StartsNot is_dash (squeezed v)),
  trim_end-EndsNot is_dash (trim_start is_dash (squeezed v)),
  trim_end-single (trim_start is_dash (squeezed v))
      (trim_start-single (squeezed v) (squeeze-single false (dash_separators false words)).0),
)
  where
    words : Text
    words = trim_end is_space (trim_start is_space v)

pub unreserved : (t s : Text) → usable_token t ≡ some s → (t ≡ s) × (is_reserved s ≡ false)
unfolding usable_token
unreserved [] s h = cc
unreserved (c ∷ t) s h = elim (Bool-cases (is_reserved (c ∷ t))) [
  | inl e ↦ absurd (ground (arith, e))
  | inr e ↦ let same : c ∷ t ≡ s = ground (arith, e) in (same, rw same at e)
]

-- What `sanitizeSegment` returns is a leaf name: no slash, colon, at sign, hash or white space, no
-- dash at an end or beside another, and no reserved word.
pub sanitize_segment-IsSegment : (v s : Text) → sanitize_segment v ≡ some s → IsSegment s
unfolding sanitize_segment
sanitize_segment-IsSegment v s h =
    let (same, free) = unreserved (clean_token v) s h in
    let (first, last, single) = clean_token-ends v in
    record {
      clean = subst (All IsClean) same (clean_token-IsClean v);
      first = subst (StartsNot is_dash) same first;
      last = subst (EndsNot is_dash) same last;
      single = subst SingleDashes same single;
      free = free;
    }
