-- ===== src/Sessions.antt =====
-- The choice of a session by `--session` or `--session-name`: unbien-cli/src/session-select.ts, with
-- the rooms of unbien-cli/src/client.ts.
use un_bien.Prelude.{
  ℕ, zero, suc, Bool, true, false, ◌&&◌, ◌||◌, not, Option, none, some, List, [], ◌∷◌, ◌++◌, Text,
  text_eq, text_starts_with, truthy, codes, decimal, option_else, find, keep,
}
pub mod Waiting

pub record RoomInfo : Type 0 where
  pub room_id : Text
  pub name : Option Text
  pub cwd : Option Text
  pub started_at : Option ℕ
  pub parent : Option Text
  pub session_id : Option Text
  pub caps : Option (List Text)
  pub peer_relay : Option Text
  pub peer_epk : Option Text

pub record SessionChoice : Type 0 where
  pub room : RoomInfo
  pub relay_url : Text
  pub relay_label : Text

unfoldable pub matches_session_id : RoomInfo → Text → Bool
unfolding text_starts_with text_eq
matches_session_id room id =
    option_else room.session_id false (λ s. text_starts_with s id) || text_eq room.room_id id

abbrev pub session_wait_retries : ℕ
session_wait_retries = 3

pub record SessionLookupResult : Type 0 where
  pub chosen : Option SessionChoice
  pub ambiguous : Option (List SessionChoice)

-- What the caller of the search asks for.
pub record Flags : Type 0 where
  pub multi_relay : Bool
  pub relay_url : Text
  pub wanted_id : Option Text
  pub wanted_name : Option Text

abbrev pub found : SessionChoice → SessionLookupResult
found c = record { chosen = some c; ambiguous = none }

abbrev pub nothing_found : SessionLookupResult
nothing_found = record { chosen = none; ambiguous = none }

unfoldable pub has_name : Flags → Text → SessionChoice → Bool
unfolding text_eq
has_name flags name c =
    option_else c.room.name false (λ n. text_eq n name)
    && (not flags.multi_relay || text_eq c.relay_url flags.relay_url)

-- One match is chosen, more than one are refused, and none is a miss.
unfoldable pub settle_named : List SessionChoice → Option SessionLookupResult
settle_named [] = none
settle_named (c ∷ []) = some (found c)
settle_named (c ∷ d ∷ named) = some (record { chosen = none; ambiguous = some (c ∷ d ∷ named) })

-- One turn of the loop over a snapshot: what it returns, or nothing on a miss.
unfoldable pub look : Flags → List SessionChoice → Option SessionLookupResult
unfolding matches_session_id has_name settle_named
look flags choices =
    option_else (truthy flags.wanted_id)
      (option_else (truthy flags.wanted_name) (some nothing_found)
        λ name. settle_named (keep (has_name flags name) choices))
      λ id.
        option_else (find (λ c. matches_session_id c.room id) choices) none (λ c. some (found c))

-- What `findFlaggedSession` comes to, or nothing where a re-gather throws, and the lines that it logs.
pub record Outcome : Type 0 where
  pub result : Option SessionLookupResult
  pub logged : List Text

abbrev pub what : Flags → Text
what flags =
    option_else (truthy flags.wanted_id)
      (codes "name \""
        ++ option_else flags.wanted_name (codes "undefined") (λ name. name)
        ++ codes "\"")
      λ id. codes "id \"" ++ id ++ codes "\""

abbrev pub waiting_line : Flags → ℕ → Text
unfolding decimal
waiting_line flags attempt =
    codes "[sessions] "
    ++ what flags
    ++ codes " not visible yet "
    ++ (0x2014 ∷ [])
    ++ codes " waiting for it to arrive ("
    ++ decimal (suc attempt)
    ++ codes "/"
    ++ decimal session_wait_retries
    ++ codes ")"
    ++ (0x2026 ∷ [])

abbrev pub after_line : Text → Outcome → Outcome
after_line line rest = record rest { logged = line ∷ rest.logged }

-- `regather n` is what the n-th re-gather brings, or nothing where it throws.
module _ (flags : Flags) (regather : ℕ → Option (List SessionChoice)) where
  -- With so many re-gathers left, after so many.
  unfoldable pub search : ℕ → ℕ → List SessionChoice → Outcome
  unfolding look
  search zero attempt choices = record {
    result = some (option_else (look flags choices) nothing_found (λ r. r));
    logged = [];
  }
  search (suc left) attempt choices =
      option_else (look flags choices)
        (after_line (waiting_line flags attempt) (
          option_else (regather (suc attempt)) (record { result = none; logged = [] })
            λ next. search left (suc attempt) next))
        λ r. record { result = some r; logged = [] }

  unfoldable pub find_flagged_session : List SessionChoice → Outcome
  unfolding search
  find_flagged_session choices = search session_wait_retries 0 choices
