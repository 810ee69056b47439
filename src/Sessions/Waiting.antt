-- ===== src/Sessions/Waiting.antt =====
-- How long the search for a session waits, and what it chooses.
use mathlib.Core.List.{Memᴰ}
use un_bien.Prelude.{
  ◌≡◌, refl, sym, ◌∙◌, ap, ◌≢◌, ◌⊎◌, inl, inr, ℕ, zero, suc, ◌+◌, ◌≤◌, Bool, true, false, Option,
  none, some, List, [], ◌∷◌, Text, arith, length, option_else, option_else-some, truthy, find, keep,
  option_elim, if_elim, option_taken,
}
use un_bien.Sessions.{
  Flags, SessionChoice, SessionLookupResult, Outcome, nothing_found, matches_session_id, has_name,
  settle_named, look, search, find_flagged_session, session_wait_retries, after_line, waiting_line,
}

-- `c` is the only one of the list that passes.
pub record Sole {ℓ} {A : Type ℓ} (p : A → Bool) (l : List A) (c : A) : Type ℓ where
  pub passes : p c ≡ true
  pub among : Memᴰ c l
  pub only : (d : A) → Memᴰ d l → p d ≡ true → d ≡ c

-- What `c` is among the choices that it was chosen from.
pub data Chosen (flags : Flags) (l : List SessionChoice) (c : SessionChoice) : Type 0 where
  by_id :
      (id : Text)
      → truthy flags.wanted_id ≡ some id
      → matches_session_id c.room id ≡ true
      → Memᴰ c l
      → Chosen flags l c
  by_name :
      (name : Text)
      → truthy flags.wanted_id ≡ none
      → truthy flags.wanted_name ≡ some name
      → Sole (has_name flags name) l c
      → Chosen flags l c

-- The snapshots that the search goes on from: from the one after `n` re-gathers to that after `m`.
pub data Misses (flags : Flags) (regather : ℕ → Option (List SessionChoice))
    : ℕ → List SessionChoice → ℕ → List SessionChoice → Type 0 where
  here : {n : ℕ} {l : List SessionChoice} → Misses flags regather n l n l
  later :
      {n m : ℕ} {l next last : List SessionChoice}
      → look flags l ≡ none
      → regather (suc n) ≡ some next
      → Misses flags regather (suc n) next m last
      → Misses flags regather n l m last

module _ {ℓ} {A : Type ℓ} (p : A → Bool) where
  find-Mem : (l : List A) (c : A) → find p l ≡ some c → (p c ≡ true) × Memᴰ c l
  find-Mem [] c e = absurd (cc e)
  find-Mem (x ∷ xs) c e =
      if_elim (λ v. v ≡ some c → (p c ≡ true) × Memᴰ c (x ∷ xs)) (p x)
        (λ h same. (cc, Memᴰ.head (cc)))
        (λ h later. let (passes, m) = find-Mem xs c later in (passes, Memᴰ.tail m)) e

  keep-none : (l : List A) → keep p l ≡ [] → (d : A) → Memᴰ d l → p d ≡ false
  keep-none [] e d m = elim m [ ]
  keep-none (x ∷ xs) e d m =
      if_elim (λ v. v ≡ [] → p d ≡ false) (p x) (λ h more. absurd (cc))
        (λ h rest. elim m [ Memᴰ.head same ↦ cc | Memᴰ.tail m' ↦ keep-none xs rest d m' ]) e

  keep-Sole : (l : List A) (c : A) → keep p l ≡ c ∷ [] → Sole p l c
  keep-Sole [] c e = absurd (cc)
  keep-Sole (x ∷ xs) c e =
      if_elim (λ v. v ≡ c ∷ [] → Sole p (x ∷ xs) c) (p x)
        (λ h one. record {
          passes = cc;
          among = Memᴰ.head (cc);
          only = λ d m passes. elim m [
            | Memᴰ.head same ↦ cc
            | Memᴰ.tail m' ↦ absurd (cc (keep-none xs (cc) d m', passes))
          ];
        })
        (λ h later.
          let sole = keep-Sole xs c later in
          record {
            passes = sole.passes;
            among = Memᴰ.tail sole.among;
            only = λ d m passes. elim m [
              | Memᴰ.head same ↦ absurd (cc)
              | Memᴰ.tail m' ↦ sole.only d m' passes
            ];
          })
        e

settle_named-one :
    (l : List SessionChoice) (r : SessionLookupResult) (c : SessionChoice)
    → settle_named l ≡ some r
    → r.chosen ≡ some c
    → l ≡ c ∷ []
unfolding settle_named
settle_named-one [] r c e k = absurd (cc)
settle_named-one (d ∷ []) r c e k =
    ap (λ o. option_else o [] alone) e ∙ ap (λ o. option_else o [] (λ x. x ∷ [])) k
  where
    alone : SessionLookupResult → List SessionChoice
    alone found_one = option_else found_one.chosen [] (λ x. x ∷ [])
settle_named-one (d ∷ f ∷ rest) r c e k =
    absurd (cc (ap (λ o. option_else o none (λ (x : SessionLookupResult). x.chosen)) e, k))

module _ (flags : Flags) where
  look-Chosen :
      (l : List SessionChoice) (r : SessionLookupResult) (c : SessionChoice)
      → look flags l ≡ some r
      → r.chosen ≡ some c
      → Chosen flags l c
  unfolding look
  look-Chosen l r c e k =
      option_elim (λ v. v ≡ some r → Chosen flags l c) (truthy flags.wanted_id)
        (λ no_id.
          option_elim (λ v. v ≡ some r → Chosen flags l c) (truthy flags.wanted_name)
            (λ no_name same.
              absurd
                (cc (ap (λ o. option_else o none (λ (x : SessionLookupResult). x.chosen)) same, k)))
            (λ name named same.
              Chosen.by_name name no_id named
                (keep-Sole (has_name flags name) l c (settle_named-one _ r c same k))))
        (λ id with_id.
          option_elim (λ v. v ≡ some r → Chosen flags l c)
            (find (λ d. matches_session_id d.room id) l) (λ missed same. absurd (cc))
            (λ d hit same.
              let (passes, m) =
                find-Mem (λ f. matches_session_id f.room id) l c
                  (hit
                    ∙ (ap (λ o. option_else o none (λ (x : SessionLookupResult). x.chosen)) same
                        ∙ k)) in
              Chosen.by_id id with_id passes m))
        e

  module _ (regather : ℕ → Option (List SessionChoice)) where
    -- What a chosen session was chosen from.
    abbrev pub ChosenFrom : ℕ → ℕ → List SessionChoice → SessionChoice → Type 0
    ChosenFrom bound attempt l c =
        (n : ℕ) × (last : List SessionChoice) × (n ≤ bound)
        × Misses flags regather attempt l n last
        × Chosen flags last c

    search-Chosen :
        (left attempt : ℕ) (l : List SessionChoice) (r : SessionLookupResult) (c : SessionChoice)
        → (search flags regather left attempt l).result ≡ some r
        → r.chosen ≡ some c
        → ChosenFrom (left + attempt) attempt l c
    unfolding search
    search-Chosen zero attempt l r c e k =
        option_elim (λ v. some v ≡ some r → ChosenFrom (0 + attempt) attempt l c) (look flags l)
          (λ missed same.
            absurd
              (cc (ap (λ o. option_else o none (λ (x : SessionLookupResult). x.chosen)) same, k)))
          (λ r' hit same. (attempt, l, omega arith, Misses.here, look-Chosen l r c (hit ∙ same) k))
          e
    search-Chosen (suc left) attempt l r c e k =
        option_elim
          (λ (v : Outcome). v.result ≡ some r → ChosenFrom (suc left + attempt) attempt l c)
          (look flags l)
          (λ missed.
            option_elim
              (λ (v : Outcome). v.result ≡ some r → ChosenFrom (suc left + attempt) attempt l c)
              (regather (suc attempt)) (λ dead same. absurd (cc))
              (λ next got same.
                let (n, last, h, m, chosen) = search-Chosen left (suc attempt) next r c same k in
                (n, last, omega (arith, h), Misses.later missed got m, chosen)))
          (λ r' hit same. (attempt, l, omega arith, Misses.here, look-Chosen l r c (hit ∙ same) k))
          e

    Misses-le : {n m : ℕ} {l last : List SessionChoice} → Misses flags regather n l m last → n ≤ m
    Misses-le here = omega arith
    Misses-le (later missed got m) = omega (arith, Misses-le m)

    -- What a search comes to that has waited for `n` re-gathers and stops at `last`.
    abbrev pub Settled : ℕ → ℕ → List SessionChoice → Outcome → Type 0
    Settled attempt n last o =
        (o.result ≡ some (option_else (look flags last) nothing_found (λ r. r)))
        × (length o.logged + attempt ≡ n)

    search-Settled :
        (left : ℕ) {attempt : ℕ} {l : List SessionChoice} {n : ℕ} {last : List SessionChoice}
        → Misses flags regather attempt l n last
        → n ≤ left + attempt
        → (look flags last ≢ none) ⊎ (n ≡ left + attempt)
        → Settled attempt n last (search flags regather left attempt l)
    unfolding search
    search-Settled zero here h k = (refl, omega arith)
    search-Settled zero {attempt} (later missed got m) h k = absurd (omega (arith, h, Misses-le m))
    search-Settled (suc left) {attempt} {l} here h k =
        option_elim (Settled attempt attempt l) (look flags l)
          (λ missed. elim k [ inl hits ↦ absurd (hits missed) | inr e ↦ absurd (omega (arith, e)) ])
          λ r hit. (
            ap some (sym (option_else-some (look flags l) nothing_found (λ x. x) r hit)),
            omega arith,
          )
    search-Settled (suc left) {attempt} {l} {n} {last} (later {next} missed got m) h k =
        option_elim (Settled attempt n last) (look flags l)
          (λ again.
            option_taken (λ o. Settled attempt n last (after_line (waiting_line flags attempt) o))
              (regather (suc attempt)) _ _ next got
              (let (settled, waited) = search-Settled left m (omega (arith, h)) later_k in
                (settled, omega (arith, waited))))
          λ r hit. absurd (cc (hit, missed))
      where
        later_k : (look flags last ≢ none) ⊎ (n ≡ left + suc attempt)
        later_k = elim k [ inl hits ↦ inl hits | inr e ↦ inr (omega (arith, e)) ]

    -- A session that the search chooses is one of a snapshot that it came to after at most three
    -- re-gathers, each after a snapshot without a match. By an id, it is one that the id matches; by a
    -- name, where no id is given, it is the only one of that snapshot with the name (on the target
    -- relay, if there are several relays).
    pub find_flagged_session-ChosenFrom :
        (choices : List SessionChoice) (r : SessionLookupResult) (c : SessionChoice)
        → (find_flagged_session flags regather choices).result ≡ some r
        → r.chosen ≡ some c
        → ChosenFrom session_wait_retries 0 choices c
    unfolding find_flagged_session
    find_flagged_session-ChosenFrom choices r c e k =
        search-Chosen session_wait_retries 0 choices r c e k

    -- If `n` re-gathers, three at most, bring the search past snapshots without a match to `last`, and
    -- `last` settles it or `n` is three, then the search returns what `last` settles, or that nothing was
    -- found, and it has logged one line for each re-gather.
    pub find_flagged_session-Settled :
        {choices : List SessionChoice} {n : ℕ} {last : List SessionChoice}
        → Misses flags regather 0 choices n last
        → n ≤ session_wait_retries
        → (look flags last ≢ none) ⊎ (n ≡ session_wait_retries)
        → Settled 0 n last (find_flagged_session flags regather choices)
    unfolding find_flagged_session
    find_flagged_session-Settled m h k = search-Settled session_wait_retries m h k
