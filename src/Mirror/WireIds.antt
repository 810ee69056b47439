-- ===== src/Mirror/WireIds.antt =====
-- A wire id names the entry that it was made for.
use un_bien.Prelude.{
  ◌≡◌, refl, sym, ap, ◌∙◌, ℕ, zero, suc, ◌+◌, ◌/◌, ◌%◌, ◌<◌, Bool, true, false, ◌&&◌, some, [], ◌∷◌,
  ◌++◌, append-nil, false≢true, Text, if_elim, ltb, all, arith, decimal, decimal_digits,
}
use un_bien.Envelope.{non_empty}
use un_bien.Mirror.{
  span_digits, number_from, is_part_suffix, numbered, entry_id_of, wire_id, is_digit,
}

-- The digits of a number, read after nothing, are the number.
number-digits :
    (fuel n : ℕ) (rest : Text)
    → n < fuel
    → number_from 0 (decimal_digits fuel n rest) ≡ number_from n rest
unfolding decimal_digits number_from
number-digits zero n rest h = absurd (omega (arith, h))
number-digits (suc fuel) n rest h =
    if_elim (λ s. number_from 0 s ≡ number_from n rest) (ltb n 10)
      (λ small. ap (λ k. number_from k rest) (ground arith))
      (λ large.
        number-digits fuel (n / 10) ((b'0' + n % 10) ∷ rest) (ground arith)
        ∙ ap (λ k. number_from k rest) (omega arith))

digits-all :
    (fuel n : ℕ) (rest : Text)
    → all is_digit rest ≡ true
    → all is_digit (decimal_digits fuel n rest) ≡ true
unfolding decimal_digits
digits-all zero n rest h = h
digits-all (suc fuel) n rest h =
    if_elim (λ s. all is_digit s ≡ true) (ltb n 10) (λ small. ground (arith, h))
      (λ _. digits-all fuel (n / 10) ((b'0' + n % 10) ∷ rest) (ground (arith, h)))

digits-non_empty :
    (fuel n : ℕ) (rest : Text)
    → non_empty rest ≡ true
    → non_empty (decimal_digits fuel n rest) ≡ true
unfolding decimal_digits
digits-non_empty zero n rest h = h
digits-non_empty (suc fuel) n rest h =
    if_elim (λ s. non_empty s ≡ true) (ltb n 10) (λ _. refl)
      (λ _. digits-non_empty fuel (n / 10) ((b'0' + n % 10) ∷ rest) refl)

decimal-non_empty : (n : ℕ) → non_empty (decimal n) ≡ true
unfolding decimal decimal_digits
decimal-non_empty n =
    if_elim (λ s. non_empty s ≡ true) (ltb n 10) (λ _. refl)
      (λ _. digits-non_empty n (n / 10) ((b'0' + n % 10) ∷ []) refl)

decimal-all : (n : ℕ) → all is_digit (decimal n) ≡ true
unfolding decimal
decimal-all n = digits-all (suc n) n [] refl

number-decimal : (n : ℕ) → number_from 0 (decimal n) ≡ n
unfolding decimal number_from
number-decimal n = number-digits (suc n) n [] (omega arith)

both : (a b : Bool) → (a && b) ≡ true → (a ≡ true) × (b ≡ true)
both true b h = (refl, h)
both false b h = cc

-- The digits before a text that is a part's suffix are all that the span takes.
span-append :
    (ds rest : Text)
    → all is_digit ds ≡ true
    → is_part_suffix rest ≡ true
    → span_digits (ds ++ rest) ≡ (ds, rest)
unfolding span_digits is_part_suffix
span-append [] [] h k = refl
span-append [] (c ∷ []) h k = cc
span-append [] (c ∷ d ∷ s) h k = ground arith
span-append (d ∷ ds) rest h k =
    if_elim (λ x. x ≡ (d ∷ ds, rest)) (is_digit d)
      (λ _.
        ap (λ p. (d ∷ p.0, p.1)) (span-append ds rest (both (is_digit d) (all is_digit ds) h).1 k))
      (λ e. absurd (false≢true (sym e ∙ (both (is_digit d) (all is_digit ds) h).0)))

numbered-some :
    (ds rest : Text)
    → non_empty ds ≡ true
    → is_part_suffix rest ≡ true
    → numbered (ds, rest) ≡ some (number_from 0 ds)
numbered-some [] rest h k = cc
numbered-some (d ∷ ds) rest h k = rw (k) refl

dot-suffix :
    (ds : Text) → non_empty ds ≡ true → all is_digit ds ≡ true → is_part_suffix (46 ∷ ds) ≡ true
unfolding is_part_suffix
dot-suffix [] h k = cc
dot-suffix (d ∷ ds) h k = k

entry_id_of-decimal :
    (id : ℕ) (rest : Text) → is_part_suffix rest ≡ true → entry_id_of (decimal id ++ rest) ≡ some id
unfolding entry_id_of
entry_id_of-decimal id rest k =
    ap numbered (span-append (decimal id) rest (decimal-all id) k)
    ∙ numbered-some (decimal id) rest (decimal-non_empty id) k
    ∙ ap some (number-decimal id)

-- A wire id, with a suffix for a later message or without, names its entry again.
pub entry_id_of-wire_id : (id n : ℕ) → entry_id_of (wire_id id n) ≡ some id
unfolding wire_id
entry_id_of-wire_id id zero =
    ap entry_id_of (sym (append-nil (decimal id)))
    ∙ entry_id_of-decimal id [] (unfold is_part_suffix in refl)
entry_id_of-wire_id id (suc n) =
    entry_id_of-decimal id (46 ∷ decimal (suc n))
      (dot-suffix (decimal (suc n)) (decimal-non_empty (suc n)) (decimal-all (suc n)))
