-- ===== src/Address/Injective.antt =====
-- An address determines the folder and the name that it was composed of, since no name that the
-- broker hands out holds an at sign.
use un_bien.Prelude.{
  ◌≡◌, refl, sym, subst, ℕ, option_else, if_elim, true, false, Text, [], ◌∷◌, ◌++◌, ◌==◌, arith,
  All, Option, none, some, codes, Bool-cases, inl, inr, all,
}
use un_bien.Envelope.{non_empty}
use un_bien.Address.{
  strip_suffix, usable_token, is_reserved, clean_token, compose_address, mesh_name_of,
  sanitize_segment, sanitize_mesh_name, split_suffix, is_separator, segment_or_agent, has_line_end,
  is_suffix, is_digit,
}
use un_bien.Address.Safety.{IsClean, sanitize_segment-IsSegment}

-- No character of the text is `c`.
abbrev pub Free : ℕ → Text → Type 0
Free c s = All (λ d. (d == c) ≡ false) s

pub Free-append : (c : ℕ) (s t : Text) → Free c s → Free c t → Free c (s ++ t)
Free-append c [] t h k = k
Free-append c (d ∷ s) t h k = (h.0, Free-append c s t h.1 k)

clean-Free : (s : Text) → All IsClean s → Free b'@' s × Free b':' s
unfolding is_separator
clean-Free [] h = (tt, tt)
clean-Free (c ∷ s) h =
    let (at, colon) = clean-Free s h.1 in ((ground (arith, h.0), at), (ground (arith, h.0), colon))

digits-Free : (s : Text) → all is_digit s ≡ true → Free b'@' s × Free b':' s
digits-Free [] h = (tt, tt)
digits-Free (c ∷ s) h =
    let (at, colon) = digits-Free s (ground arith) in ((ground arith, at), (ground arith, colon))

suffix-Free : (s : Text) → is_suffix s ≡ true → Free b'@' s × Free b':' s
unfolding is_suffix
suffix-Free [] h = cc
suffix-Free (c ∷ []) h = cc
suffix-Free (c ∷ d ∷ s) h =
    let (at, colon) = digits-Free (d ∷ s) (ground arith) in
    ((ground arith, at), (ground arith, colon))

-- What is split off is a suffix.
abbrev SplitsSuffix : Option (Text × Text) → Type 0
SplitsSuffix none = Unit
SplitsSuffix (some (base, suffix)) = is_suffix suffix ≡ true

split_suffix-suffix : (s : Text) → SplitsSuffix (split_suffix s)
unfolding split_suffix
split_suffix-suffix [] = tt
split_suffix-suffix (c ∷ s) = elim (Bool-cases (is_suffix (c ∷ s))) [
  | inl e ↦ rw (e, SplitsSuffix) e
  | inr e ↦ rw (e, SplitsSuffix) (under (split_suffix s) (split_suffix-suffix s))
]
  where
    under :
        (o : Option (Text × Text))
        → SplitsSuffix o
        → SplitsSuffix (option_else o none (λ p. some (c ∷ p.0, p.1)))
    under none h = tt
    under (some (base, suffix)) h = h

segment_or_agent-Free : (s : Text) → Free b'@' (segment_or_agent s) × Free b':' (segment_or_agent s)
segment_or_agent-Free s = go (sanitize_segment s) refl
  where
    go :
        (o : Option Text)
        → sanitize_segment s ≡ o
        → Free b'@' (option_else o (codes "agent") (λ t. t))
          × Free b':' (option_else o (codes "agent") (λ t. t))
    go none e = ground arith
    go (some t) e = clean-Free t (sanitize_segment-IsSegment s t e).clean

suffixed-Free :
    (raw : Text) (o : Option (Text × Text))
    → SplitsSuffix o
    → Free b'@' (mesh_name_of raw o) × Free b':' (mesh_name_of raw o)
suffixed-Free raw none h = segment_or_agent-Free raw
suffixed-Free raw (some (base, suffix)) h =
    let (at, colon) = segment_or_agent-Free base in
    let (at', colon') = suffix-Free suffix h in
    (
      Free-append b'@' (segment_or_agent base) suffix at at',
      Free-append b':' (segment_or_agent base) suffix colon colon',
    )

-- The name of a peer holds neither of the characters that an address is put together with.
pub sanitize_mesh_name-Free :
    (raw : Text) → Free b'@' (sanitize_mesh_name raw) × Free b':' (sanitize_mesh_name raw)
unfolding sanitize_mesh_name
sanitize_mesh_name-Free raw = elim (Bool-cases (has_line_end raw)) [
  | inl e ↦ rw e (segment_or_agent-Free raw)
  | inr e ↦ rw e (suffixed-Free raw (split_suffix raw) (split_suffix-suffix raw))
]

-- What is left when a suffix is split off.
abbrev Leaves : (Text → Type 0) → Option (Text × Text) → Type 0
Leaves P none = Unit
Leaves P (some (base, suffix)) = P base

split_suffix-Free : (c : ℕ) (s : Text) → Free c s → Leaves (Free c) (split_suffix s)
unfolding split_suffix
split_suffix-Free c [] h = tt
split_suffix-Free c (d ∷ s) h = elim (Bool-cases (is_suffix (d ∷ s))) [
  | inl e ↦ rw (e, Leaves) tt
  | inr e ↦ rw (e, Leaves) (under (split_suffix s) (split_suffix-Free c s h.1))
]
  where
    under :
        (o : Option (Text × Text))
        → Leaves (Free c) o
        → Leaves (Free c) (option_else o none (λ p. some (d ∷ p.0, p.1)))
    under none k = tt
    under (some (base, suffix)) k = (h.0, k)

pub strip_suffix-Free : (c : ℕ) (s : Text) → Free c s → Free c (strip_suffix s)
unfolding strip_suffix
strip_suffix-Free c s h = go (split_suffix s) (split_suffix-Free c s h)
  where
    go : (o : Option (Text × Text)) → Leaves (Free c) o → Free c (option_else o s (λ p. p.0))
    go none k = h
    go (some (base, suffix)) k = k

segment_or_agent-non_empty : (s : Text) → non_empty (segment_or_agent s) ≡ true
unfolding sanitize_segment
segment_or_agent-non_empty s = go (clean_token s)
  where
    go : (t : Text) → non_empty (option_else (usable_token t) (codes "agent") (λ t. t)) ≡ true
    go [] = unfold usable_token in refl
    go (c ∷ t) =
        unfold usable_token in
        elim (Bool-cases (is_reserved (c ∷ t))) [ inl e ↦ rw e refl | inr e ↦ rw e refl ]

suffixed-non_empty :
    (base suffix : Text) → non_empty base ≡ true → non_empty (base ++ suffix) ≡ true
suffixed-non_empty [] suffix h = cc
suffixed-non_empty (c ∷ base) suffix h = refl

pub sanitize_mesh_name-non_empty : (raw : Text) → non_empty (sanitize_mesh_name raw) ≡ true
unfolding sanitize_mesh_name
sanitize_mesh_name-non_empty raw =
    if_elim (λ s. non_empty s ≡ true) (has_line_end raw) (λ _. segment_or_agent-non_empty raw)
      (λ _. go (split_suffix raw))
  where
    go : (o : Option (Text × Text)) → non_empty (mesh_name_of raw o) ≡ true
    go none = segment_or_agent-non_empty raw
    go (some (base, suffix)) =
        suffixed-non_empty (segment_or_agent base) suffix (segment_or_agent-non_empty base)

not-Free : (c : ℕ) (s t : Text) → ¬ Free c (s ++ (c ∷ t))
not-Free c [] t h = absurd (ground (arith, h.0))
not-Free c (d ∷ s) t h = not-Free c s t h.1

split_at :
    (c : ℕ) (s s' t t' : Text)
    → Free c t
    → Free c t'
    → s ++ (c ∷ t) ≡ s' ++ (c ∷ t')
    → (s ≡ s') × (t ≡ t')
split_at c [] [] t t' h h' e = (refl, cc)
split_at c [] (d ∷ s') t t' h h' e =
    let tails : t ≡ s' ++ (c ∷ t') = cc in absurd (not-Free c s' t' (subst (Free c) tails h))
split_at c (d ∷ s) [] t t' h h' e =
    let tails : t' ≡ s ++ (c ∷ t) = cc in absurd (not-Free c s t (subst (Free c) tails h'))
split_at c (d ∷ s) (d' ∷ s') t t' h h' e =
    let tails : s ++ (c ∷ t) ≡ s' ++ (c ∷ t') = cc in
    let (same, rest) = split_at c s s' t t' h h' tails in (cc, rest)

-- Two peers of one machine have the same address only if they have the same folder and name, where
-- their names hold no at sign; the folder may be absent.
pub compose_address-injective :
    (cwd cwd' name name' : Text)
    → Free b'@' name
    → Free b'@' name'
    → compose_address [] cwd name ≡ compose_address [] cwd' name'
    → (cwd ≡ cwd') × (name ≡ name')
unfolding compose_address
compose_address-injective [] [] name name' h h' e = (refl, e)
compose_address-injective [] (c ∷ cwd') name name' h h' e =
    absurd (not-Free b'@' (c ∷ cwd') name' (subst (Free b'@') e h))
compose_address-injective (c ∷ cwd) [] name name' h h' e =
    absurd (not-Free b'@' (c ∷ cwd) name (subst (Free b'@') (sym e) h'))
compose_address-injective (c ∷ cwd) (c' ∷ cwd') name name' h h' e =
    split_at b'@' (c ∷ cwd) (c' ∷ cwd') name name' h h' e
