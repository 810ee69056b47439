-- ===== src/Address/Idempotence.antt =====
-- Sanitizing twice is sanitizing once.
use un_bien.Prelude.{
  ◌≡◌, refl, ℕ, Bool, true, false, ◌&&◌, Text, [], ◌∷◌, some, arith, All, if◌then◌else◌,
}
use un_bien.Address.{
  is_space, is_separator, trim_start, trim_end, dash_separators, squeeze_dashes, clean_token,
  sanitize_segment, cons_unless_last, is_dash,
}
use un_bien.Address.Safety.{
  IsClean, StartsNot, EndsNot, SingleDashes, IsSegment, Follows, unreserved,
  sanitize_segment-IsSegment,
}

dash_separators_clean : (b : Bool) (s : Text) → All IsClean s → dash_separators b s ≡ s
unfolding dash_separators
dash_separators_clean b [] h = refl
dash_separators_clean b (c ∷ s) h = rw (h.0, dash_separators_clean false s h.1)

trim_start_done : (p : ℕ → Bool) (s : Text) → StartsNot p s → trim_start p s ≡ s
unfolding trim_start
trim_start_done p [] h = refl
trim_start_done p (c ∷ s) h = rw h

trim_end_done : (p : ℕ → Bool) (s : Text) → EndsNot p s → trim_end p s ≡ s
unfolding trim_end
trim_end_done p [] h = refl
trim_end_done p (c ∷ []) h = rw h
trim_end_done p (c ∷ d ∷ s) h = rw (trim_end_done p (d ∷ s) h) (whole (p c))
  where
    whole : (b : Bool) → cons_unless_last b c (d ∷ s) ≡ c ∷ d ∷ s
    whole true = refl
    whole false = refl

squeeze_done : (b : Bool) (s : Text) → SingleDashes s → Follows b s → squeeze_dashes b s ≡ s
unfolding squeeze_dashes
squeeze_done b [] h k = refl
squeeze_done b (c ∷ s) h k =
    kept b (is_dash c) refl k (squeeze_done (is_dash c) s (rest s h) (next (is_dash c) refl s h))
  where
    kept :
        (b d : Bool)
        → is_dash c ≡ d
        → Follows b (c ∷ s)
        → squeeze_dashes d s ≡ s
        → (if d && b then squeeze_dashes d s else c ∷ squeeze_dashes d s) ≡ c ∷ s
    kept true true e k h = absurd (ground arith)
    kept false true e k h = rw h
    kept true false e k h = rw h
    kept false false e k h = rw h

    rest : (s : Text) → SingleDashes (c ∷ s) → SingleDashes s
    rest [] h = tt
    rest (d ∷ s) h = h.1

    next : (b : Bool) → is_dash c ≡ b → (s : Text) → SingleDashes (c ∷ s) → Follows b s
    next true e [] h = tt
    next true e (d ∷ s) h = rw e at (h.0)
    next false e s h = tt

clean-no-space : (s : Text) → All IsClean s → All (λ c. is_space c ≡ false) s
unfolding is_separator
clean-no-space [] h = tt
clean-no-space (c ∷ s) h = (ground (arith, h.0), clean-no-space s h.1)

StartsNot-All : (p : ℕ → Bool) (s : Text) → All (λ c. p c ≡ false) s → StartsNot p s
StartsNot-All p [] h = tt
StartsNot-All p (c ∷ s) h = h.0

EndsNot-All : (p : ℕ → Bool) (s : Text) → All (λ c. p c ≡ false) s → EndsNot p s
EndsNot-All p [] h = tt
EndsNot-All p (c ∷ []) h = h.0
EndsNot-All p (c ∷ d ∷ s) h = EndsNot-All p (d ∷ s) h.1

clean_token_done : (s : Text) → IsSegment s → clean_token s ≡ s
unfolding clean_token
clean_token_done s h = rw (
  trim_start_done is_space s (StartsNot-All is_space s (clean-no-space s h.clean)),
  trim_end_done is_space s (EndsNot-All is_space s (clean-no-space s h.clean)),
  dash_separators_clean false s h.clean,
  squeeze_done false s h.single tt,
  trim_start_done is_dash s h.first,
  trim_end_done is_dash s h.last,
)

-- A sanitized name is sanitized: doing it again changes nothing.
pub sanitize_segment_idem : (v s : Text) → sanitize_segment v ≡ some s → sanitize_segment s ≡ some s
unfolding sanitize_segment
sanitize_segment_idem v s h =
    rw (clean_token_done s (sanitize_segment-IsSegment v s h))
      (rw (unreserved (clean_token v) s h).0 at h)
