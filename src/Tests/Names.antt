-- ===== src/Tests/Names.antt =====
-- The names, addresses and envelopes of the unit tests, and the theorems on them.
use un_bien.Prelude.{◌∷◌, true, ◌≡◌, refl, codes, some, none, decimal, text_eq, [], Text}
use un_bien.Address.{
  is_bounded_peer_addresses, sanitize_segment, sanitize_mesh_name, migrate_agent_name,
  compose_address,
}
use un_bien.Address.Safety.{IsSegment, sanitize_segment-IsSegment}
use un_bien.Address.Injective.{compose_address-injective}
use un_bien.Json.{obj, field, end, Value, str}
use un_bien.Envelope.{
  as_transport_error_body, offline, Envelope, one, parse, serialize, ok, is_uuid,
}
use un_bien.Envelope.RoundTrip.{IsValid, Ensures, parse-serialize, parse-Ensures}

sanitize_segment_run : sanitize_segment (codes "  my /: proj--x#@ ") ≡ some (codes "my-proj-x")
unfolding sanitize_segment text_eq
sanitize_segment_run = refl

sanitize_mesh_name_run : sanitize_mesh_name (codes "a b#1#23") ≡ codes "a-b-1#23"
unfolding sanitize_mesh_name text_eq
sanitize_mesh_name_run = refl

reserved_run : sanitize_mesh_name (codes "Broker#2") ≡ codes "agent#2"
unfolding sanitize_mesh_name text_eq
reserved_run = refl

migrate_agent_name_run : migrate_agent_name (codes "work/foo#3") ≡ some (codes "foo")
unfolding migrate_agent_name
migrate_agent_name_run = refl

decimal_run : decimal 1024 ≡ codes "1024"
unfolding decimal
decimal_run = refl

sanitize_segment-IsSegment_example : IsSegment (codes "my-proj-x")
sanitize_segment-IsSegment_example =
    sanitize_segment-IsSegment (codes "  my /: proj--x#@ ") (codes "my-proj-x") sanitize_segment_run

address_run :
    compose_address [] (codes "/w") (codes "a") ≡ compose_address [] (codes "/w") (codes "a")
address_run = refl

compose_address-injective_example : (codes "/w" ≡ codes "/w") × (codes "a" ≡ codes "a")
compose_address-injective_example =
    compose_address-injective (codes "/w") (codes "/w") (codes "a") (codes "a") (refl, tt)
      (refl, tt) address_run

abbrev id_text : Text
id_text = codes "0190a0b0-0000-7000-8000-000000000001"

abbrev greeting : Envelope
greeting = record {
  from = codes "/w@a";
  to = one (codes "/w@b");
  id = id_text;
  re = none;
  body = some (str (codes "hello"));
}

greeting-IsValid : IsValid greeting
unfolding is_uuid
greeting-IsValid = record {
  from = refl;
  to = refl;
  id = refl;
  re = tt;
  body = (str (codes "hello"), refl);
}

parse-serialize_example : parse (some (serialize greeting)) ≡ ok greeting
parse-serialize_example = parse-serialize greeting greeting-IsValid

parse-Ensures_example : Ensures IsValid (parse (some (serialize greeting)))
parse-Ensures_example = parse-Ensures (some (serialize greeting))

abbrev error_body : Text → Value
error_body reason =
    obj (
      field (codes "type") (str (codes "transport_error"))
        (field (codes "reason") (str reason) end))

offline_run : as_transport_error_body (error_body (codes "offline")) ≡ some offline
unfolding as_transport_error_body text_eq
offline_run = refl

-- The one reason that is listed and not read.
unknown_peer_run : as_transport_error_body (error_body (codes "unknown_peer")) ≡ none
unfolding as_transport_error_body text_eq
unknown_peer_run = refl

addresses_run : is_bounded_peer_addresses (some (codes "/w@a") ∷ []) ≡ true
unfolding is_bounded_peer_addresses
addresses_run = refl
