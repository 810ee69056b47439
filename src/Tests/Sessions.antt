-- ===== src/Tests/Sessions.antt =====
-- A search for a session by name that comes into view with the second snapshot, where another relay has
-- one of the same name, and the theorems about the search applied to it.
use un_bien.Prelude.{
  ◌≡◌, refl, ◌≢◌, inl, true, ℕ, Option, none, some, List, [], ◌∷◌, Text, codes, arith, false,
}
use un_bien.Sessions.{
  RoomInfo, SessionChoice, Flags, found, look, find_flagged_session, session_wait_retries,
}
use un_bien.Sessions.Waiting.{
  Misses, ChosenFrom, Settled, find_flagged_session-ChosenFrom, find_flagged_session-Settled,
}

abbrev room : Text → RoomInfo
room id = record {
  room_id = id;
  name = some (codes "api");
  cwd = none;
  started_at = none;
  parent = none;
  session_id = none;
  caps = none;
  peer_relay = none;
  peer_epk = none;
}

abbrev here : SessionChoice
here = record { room = room (codes "1"); relay_url = codes "wss://a"; relay_label = codes "a" }

abbrev elsewhere : SessionChoice
elsewhere = record { room = room (codes "2"); relay_url = codes "wss://b"; relay_label = codes "b" }

abbrev flags : Flags
flags = record {
  multi_relay = true;
  relay_url = codes "wss://a";
  wanted_id = none;
  wanted_name = some (codes "api");
}

abbrev one_relay : Flags
one_relay = record {
  multi_relay = false;
  relay_url = codes "wss://a";
  wanted_id = none;
  wanted_name = some (codes "api");
}

abbrev regather : ℕ → Option (List SessionChoice)
regather n = some (elsewhere ∷ here ∷ [])

refuses :
    look one_relay (elsewhere ∷ here ∷ [])
    ≡ some (record { chosen = none; ambiguous = some (elsewhere ∷ here ∷ []) })
unfolding look
refuses = refl

comes : (find_flagged_session flags regather []).result ≡ some (found here)
unfolding find_flagged_session
comes = refl

hits : look flags (elsewhere ∷ here ∷ []) ≢ none
unfolding look
hits e = cc

misses : Misses flags regather 0 [] 1 (elsewhere ∷ here ∷ [])
unfolding look
misses = Misses.later refl refl Misses.here

find_flagged_session-ChosenFrom_example : ChosenFrom flags regather session_wait_retries 0 [] here
find_flagged_session-ChosenFrom_example =
    find_flagged_session-ChosenFrom flags regather [] (found here) here comes refl

find_flagged_session-Settled_example :
    Settled flags regather 0 1 (elsewhere ∷ here ∷ []) (find_flagged_session flags regather [])
find_flagged_session-Settled_example =
    find_flagged_session-Settled flags regather misses (omega arith) (inl hits)
