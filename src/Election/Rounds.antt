-- ===== src/Election/Rounds.antt =====
-- The election comes to an end.
use un_bien.Prelude.{
  ℕ, ◌+◌, ◌≤◌, ◌≢◌, Bool, ◌&&◌, ◌||◌, List, [], ◌∷◌, if◌then◌else◌, if_elim, ltb, leb, length,
  arith,
}
use un_bien.Election.{
  Round, ElectionResult, leader, follower, out_of_rounds, Act, JoinLimits, doing, bind_acts,
  give_up, probe_elim, join_rounds, join_or_lead,
}

abbrev Ends : ElectionResult × List (List Act) → Type 0
Ends r = r.0 ≢ out_of_rounds

leader-Ends : leader ≢ out_of_rounds
leader-Ends e = cc

follower-Ends : follower ≢ out_of_rounds
follower-Ends e = cc

module _ (limits : JoinLimits) (pipe : Bool) where
  give_up-Ends : (busy_seen : ℕ) → give_up limits busy_seen ≢ out_of_rounds
  give_up-Ends busy_seen =
      if_elim (λ x. x ≢ out_of_rounds) (ltb limits.busy_max_attempts busy_seen) (λ _ e. cc)
        (λ _ e. cc)

  join_rounds-Ends :
      (rounds : List Round) (busy_seen race_retries : ℕ)
      → limits.max_attempts + (limits.busy_max_attempts + 1)
        ≤ length rounds + (busy_seen + race_retries)
      → Ends (join_rounds limits pipe busy_seen race_retries rounds)
  unfolding join_rounds
  join_rounds-Ends [] busy_seen race_retries enough =
      if_elim Ends (ltb race_retries limits.max_attempts && leb busy_seen limits.busy_max_attempts)
        (λ going. absurd (ground arith)) (λ _. give_up-Ends busy_seen)
  join_rounds-Ends (r ∷ rest) busy_seen race_retries enough =
      let binding : Ends (
          if r.binds
          then (leader, bind_acts pipe r ∷ [])
          else doing (bind_acts pipe r)
              (join_rounds limits pipe busy_seen (race_retries + 1) rest)) =
        if_elim Ends r.binds (λ _. leader-Ends)
          (λ _. join_rounds-Ends rest busy_seen (race_retries + 1) (omega (arith, enough))) in
      if_elim Ends (ltb race_retries limits.max_attempts && leb busy_seen limits.busy_max_attempts)
        (λ _.
          if_elim Ends (pipe || r.exists)
            (λ _.
              probe_elim Ends r.probe (λ _. follower-Ends) (λ _. binding)
                (λ _. join_rounds-Ends rest (busy_seen + 1) race_retries (omega (arith, enough))))
            (λ _. binding))
        (λ _. give_up-Ends busy_seen)

  -- The election ends: whatever the others do, there is a leader, a follower or an error after at most as
  -- many rounds as there may be lost binds and busy probes together, and one more.
  pub join_or_lead-Ends :
      (rounds : List Round)
      → limits.max_attempts + (limits.busy_max_attempts + 1) ≤ length rounds
      → (join_or_lead limits pipe rounds).0 ≢ out_of_rounds
  unfolding join_or_lead
  join_or_lead-Ends rounds enough = join_rounds-Ends rounds 0 0 (omega (arith, enough))
