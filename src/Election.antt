-- ===== src/Election.antt =====
-- Who leads: `joinOrLead` of extension/src/session/leader_election.ts. What the operating system and
-- the other processes answer is a list of rounds, which the loop takes one by one: is there a socket
-- file, what the probe of its occupant finds, and whether binding works. What the loop does to the
-- socket file is kept, in order.
pub mod Safety
pub mod Rounds
use un_bien.Prelude.{
  ◌≡◌, refl, ap, ◌∙◌, ℕ, zero, suc, ◌+◌, ◌*◌, ◌≤◌, ◌<◌, Bool, true, false, ◌&&◌, ◌||◌, not, Option,
  none, some, List, [], ◌∷◌, ◌++◌, if◌then◌else◌, if_elim, ltb, leb, length, All, arith, Bool-cases,
  inl, inr, any, keep, take, drop,
}

pub data LeaderProbe : Type 0 where
  live dead busy : LeaderProbe

pub record Round : Type 0 where
  pub exists : Bool
  pub probe : LeaderProbe
  pub binds : Bool

pub data ElectionResult : Type 0 where
  leader follower : ElectionResult
  busy_too_long no_bind : ElectionResult
  out_of_rounds : ElectionResult

-- What a round does to the socket file.
pub data Act : Type 0 where
  waits unlinks tries_bind : Act

pub record JoinLimits : Type 0 where
  pub max_attempts : ℕ
  pub busy_max_attempts : ℕ

abbrev pub default_limits : JoinLimits
default_limits = record { max_attempts = 20; busy_max_attempts = 100 }

-- The two errors after the loop.
abbrev pub give_up : JoinLimits → ℕ → ElectionResult
give_up limits busy_seen = if ltb limits.busy_max_attempts busy_seen then busy_too_long else no_bind

abbrev pub doing : List Act → ElectionResult × List (List Act) → ElectionResult × List (List Act)
doing acts r = (r.0, acts ∷ r.1)

-- The three outcomes of a probe.
abbrev pub on_probe {ℓ} : {A : Type ℓ} → LeaderProbe → A → A → A → A
on_probe live a d b = a
on_probe dead a d b = d
on_probe busy a d b = b

pub probe_elim {ℓ κ} :
    {A : Type ℓ} (P : A → Type κ) (p : LeaderProbe) {a d b : A}
    → (p ≡ live → P a)
    → (p ≡ dead → P d)
    → (p ≡ busy → P b)
    → P (on_probe p a d b)
probe_elim P live f g h = f refl
probe_elim P dead f g h = g refl
probe_elim P busy f g h = h refl

-- The acts of a round that comes to binding: a stale file goes first, where there are files.
abbrev pub bind_acts : Bool → Round → List Act
bind_acts pipe r = if r.exists && not pipe then unlinks ∷ tries_bind ∷ [] else tries_bind ∷ []

-- The loop, with the counts so far. Each round is one list of acts.
unfoldable pub join_rounds :
    JoinLimits → Bool → ℕ → ℕ → List Round → ElectionResult × List (List Act)
join_rounds limits pipe busy_seen race_retries [] =
    if ltb race_retries limits.max_attempts && leb busy_seen limits.busy_max_attempts
    then (out_of_rounds, [])
    else (give_up limits busy_seen, [])
join_rounds limits pipe busy_seen race_retries (r ∷ rest) =
    let waited = join_rounds limits pipe (busy_seen + 1) race_retries rest in
    let raced = join_rounds limits pipe busy_seen (race_retries + 1) rest in
    let bound =
      if r.binds then (leader, bind_acts pipe r ∷ []) else doing (bind_acts pipe r) raced in
    if ltb race_retries limits.max_attempts && leb busy_seen limits.busy_max_attempts
    then (if pipe || r.exists
        then on_probe r.probe (follower, [] ∷ []) bound (doing (waits ∷ []) waited)
        else bound)
    else (give_up limits busy_seen, [])

unfoldable pub join_or_lead : JoinLimits → Bool → List Round → ElectionResult × List (List Act)
unfolding join_rounds
join_or_lead limits pipe rounds = join_rounds limits pipe 0 0 rounds
