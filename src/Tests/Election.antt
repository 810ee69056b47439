-- ===== src/Tests/Election.antt =====
-- An election that waits for a slow leader, loses a race and then leads.
use un_bien.Prelude.{◌≡◌, refl, true, false, List, [], ◌∷◌, ◌≢◌, arith}
use un_bien.Election.{
  Round, live, dead, busy, JoinLimits, leader, out_of_rounds, default_limits, join_or_lead, waits,
  unlinks, tries_bind,
}
use un_bien.Election.Safety.{AllRespect, join_or_lead-AllRespect}
use un_bien.Election.Rounds.{join_or_lead-Ends}

abbrev rounds : List Round
rounds =
    record { exists = true; probe = busy; binds = true }
    ∷ record { exists = true; probe = dead; binds = false }
    ∷ record { exists = false; probe = live; binds = true }
    ∷ []

abbrev few : JoinLimits
few = record { max_attempts = 1; busy_max_attempts = 1 }

join_or_lead_run :
    join_or_lead default_limits false rounds
    ≡ (leader, (waits ∷ []) ∷ (unlinks ∷ tries_bind ∷ []) ∷ (tries_bind ∷ []) ∷ [])
unfolding join_or_lead
join_or_lead_run = refl

join_or_lead-AllRespect_example :
    AllRespect false rounds (join_or_lead default_limits false rounds).1
join_or_lead-AllRespect_example = join_or_lead-AllRespect default_limits false rounds

join_or_lead-Ends_example : (join_or_lead few false rounds).0 ≢ out_of_rounds
join_or_lead-Ends_example = join_or_lead-Ends few false rounds (omega arith)
