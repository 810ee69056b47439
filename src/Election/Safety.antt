-- ===== src/Election/Safety.antt =====
-- A leader that answers, or that is only slow to, keeps its socket file.
use un_bien.Prelude.{
  ◌≡◌, ℕ, ◌+◌, Bool, true, false, false≢true, ◌&&◌, ◌||◌, not, List, [], ◌∷◌, if◌then◌else◌,
  if_elim, ltb, leb, arith, subst, sym, ◌∙◌,
}
use un_bien.Election.{
  LeaderProbe, live, dead, busy, Round, ElectionResult, leader, Act, waits, unlinks, tries_bind,
  JoinLimits, doing, bind_acts, probe_elim, join_rounds, join_or_lead,
}

-- The act leaves the socket file alone.
abbrev pub IsHarmless : Act → Type 0
IsHarmless waits = Unit
IsHarmless unlinks = ⊥
IsHarmless tries_bind = ⊥

abbrev pub AllHarmless : List Act → Type 0
AllHarmless [] = Unit
AllHarmless (a ∷ rest) = IsHarmless a × AllHarmless rest

-- Does the probe of an occupant leave it its file?
abbrev pub is_alive : LeaderProbe → Bool
is_alive live = true
is_alive dead = false
is_alive busy = true

abbrev pub NoUnlink : List Act → Type 0
NoUnlink [] = Unit
NoUnlink (waits ∷ rest) = NoUnlink rest
NoUnlink (unlinks ∷ rest) = ⊥
NoUnlink (tries_bind ∷ rest) = NoUnlink rest

-- Round by round: where the occupant is alive, the acts are harmless; where there is no file, and with
-- named pipes, nothing is unlinked.
pub record Respects (pipe : Bool) (r : Round) (acts : List Act) : Type 0 where
  pub alive : (pipe || r.exists) ≡ true → is_alive r.probe ≡ true → AllHarmless acts
  pub no_pipe : pipe ≡ true → NoUnlink acts
  pub no_file : r.exists ≡ false → NoUnlink acts

abbrev pub AllRespect : Bool → List Round → List (List Act) → Type 0
AllRespect pipe rounds [] = Unit
AllRespect pipe [] (acts ∷ rest) = ⊥
AllRespect pipe (r ∷ rounds) (acts ∷ rest) = Respects pipe r acts × AllRespect pipe rounds rest

module _ (limits : JoinLimits) (pipe : Bool) where
  abbrev Good : List Round → ElectionResult × List (List Act) → Type 0
  Good rounds r = AllRespect pipe rounds r.1

  bind_acts-Respects :
      (r : Round)
      → ((pipe || r.exists) ≡ true → is_alive r.probe ≡ true → ⊥)
      → Respects pipe r (bind_acts pipe r)
  bind_acts-Respects r free = record {
    alive = λ e k. absurd (free e k);
    no_pipe = λ e. if_elim NoUnlink (r.exists && not pipe) (λ k. absurd (ground arith)) (λ _. tt);
    no_file = λ e. if_elim NoUnlink (r.exists && not pipe) (λ k. absurd (ground arith)) (λ _. tt);
  }

  harmless-Respects :
      (r : Round) (acts : List Act) → AllHarmless acts → NoUnlink acts → Respects pipe r acts
  harmless-Respects r acts h n = record { alive = λ _ _. h; no_pipe = λ _. n; no_file = λ _. n }

  alive_or_dead : (r : Round) → r.probe ≡ dead → is_alive r.probe ≡ true → ⊥
  alive_or_dead r e k = false≢true (subst (λ p. is_alive p ≡ true) e k)

  join_rounds-Good :
      (rounds : List Round) (busy_seen race_retries : ℕ)
      → Good rounds (join_rounds limits pipe busy_seen race_retries rounds)
  unfolding join_rounds
  join_rounds-Good [] busy_seen race_retries =
      if_elim (Good [])
        (ltb race_retries limits.max_attempts && leb busy_seen limits.busy_max_attempts) (λ _. tt)
        (λ _. tt)
  join_rounds-Good (r ∷ rest) busy_seen race_retries =
      let binding : ((pipe || r.exists) ≡ true → is_alive r.probe ≡ true → ⊥)
          → Good (r ∷ rest) (
              if r.binds
              then (leader, bind_acts pipe r ∷ [])
              else doing (bind_acts pipe r)
                  (join_rounds limits pipe busy_seen (race_retries + 1) rest)) =
        λ free.
          if_elim (Good (r ∷ rest)) r.binds (λ _. (bind_acts-Respects r free, tt))
            (λ _.
              (bind_acts-Respects r free, join_rounds-Good rest busy_seen (race_retries + 1))) in
      if_elim (Good (r ∷ rest))
        (ltb race_retries limits.max_attempts && leb busy_seen limits.busy_max_attempts)
        (λ _.
          if_elim (Good (r ∷ rest)) (pipe || r.exists)
            (λ there.
              probe_elim (Good (r ∷ rest)) r.probe (λ _. (harmless-Respects r [] tt tt, tt))
                (λ e. binding (λ _. alive_or_dead r e))
                (λ _. (
                  harmless-Respects r (waits ∷ []) (tt, tt) tt,
                  join_rounds-Good rest (busy_seen + 1) race_retries,
                )))
            (λ nobody. binding (λ e _. false≢true (sym nobody ∙ e))))
        (λ _. tt)

  -- Whatever the rounds are, a joiner neither unlinks the socket file of an occupant that answers, or
  -- that is only slow to, nor binds in its place; and it unlinks nothing where there is no file or where
  -- sockets are named pipes.
  pub join_or_lead-AllRespect :
      (rounds : List Round) → AllRespect pipe rounds (join_or_lead limits pipe rounds).1
  unfolding join_or_lead
  join_or_lead-AllRespect rounds = join_rounds-Good rounds 0 0
