-- ===== src/Remote/Errors.antt =====
-- `_propagateTransportError`: an error of the relay's own, which it signs with a name that no key has.
use un_bien.Prelude.{
  ℕ, Bool, ◌&&◌, ◌||◌, not, Option, none, some, List, [], ◌∷◌, ◌++◌, Text, text_eq, if◌then◌else◌,
  codes, option_else, leb, ◌==◌, length, take, drop, all,
}
use un_bien.Json.{Value, str, obj, end, field, member, as_text}
use un_bien.Envelope.{
  Envelope, one, is_uuid, as_transport_error_body, TransportErrorReason, offline, not_authorized,
  bad_envelope, unknown_peer,
}
use un_bien.Address.{broadcast_name, broker_name}
use un_bien.Broker.Inject.{inject_from_remote}
use un_bien.Remote.Prefix.{strip_known_pc_prefix}
use un_bien.Remote.State.{BrokerRemote, log_drop, invalid_relay_error}

abbrev pub is_lower_hex : ℕ → Bool
is_lower_hex c = leb b'0' c && leb c b'9' || leb b'a' c && leb c b'f'

-- `/^[0-9a-f]{32}$/`
unfoldable pub is_legacy_relay_id : Text → Bool
is_legacy_relay_id id = length id == 32 && all is_lower_hex id

-- The pieces of the lengths, with dashes between, and the rest.
abbrev pub dashed : List ℕ → Text → Text
dashed [] id = id
dashed (n ∷ ns) id = take n id ++ (b'-' ∷ dashed ns (drop n id))

unfoldable pub normalized_relay_id : Text → Option Text
unfolding is_legacy_relay_id is_uuid
normalized_relay_id id =
    if is_legacy_relay_id id
    then some (dashed (8 ∷ 4 ∷ 4 ∷ 4 ∷ []) id)
    else if is_uuid id
    then some id
    else none

abbrev pub json_of_reason : TransportErrorReason → Text
json_of_reason offline = codes "offline"
json_of_reason not_authorized = codes "not_authorized"
json_of_reason bad_envelope = codes "bad_envelope"
json_of_reason unknown_peer = codes "unknown_peer"

abbrev pub transport_error_body : TransportErrorReason → Value
transport_error_body reason = obj (
    field (codes "type") (str (codes "transport_error"))
      (field (codes "reason") (str (json_of_reason reason)) end))

abbrev pub relay_name : Text
relay_name = codes "_relay"

abbrev pub relay_error : Text → Text → Text → TransportErrorReason → Envelope
relay_error id re target reason = record {
  from = broker_name;
  to = one target;
  id = id;
  re = some re;
  body = some (transport_error_body reason);
}

-- The error of the relay's as the broker's envelope: all that is looked for must be there.
unfoldable pub transport_error_envelope :
    Option Text
    → Option Text
    → Option Text
    → Option Text
    → Option TransportErrorReason
    → Option Envelope
unfolding is_uuid
transport_error_envelope from id re target reason = option_else from none λ f.
    option_else id none λ i. option_else re none λ q. option_else target none λ t.
      option_else reason none λ why.
        if text_eq f relay_name && is_uuid q && not (text_eq t broadcast_name)
        then some (relay_error i q t why)
        else none

unfoldable pub relay_error_of : BrokerRemote → Value → Option Envelope
unfolding member as_text as_transport_error_body strip_known_pc_prefix normalized_relay_id
    transport_error_envelope
relay_error_of r env =
    transport_error_envelope (as_text (member env (codes "from")))
      (option_else (as_text (member env (codes "id"))) none normalized_relay_id)
      (as_text (member env (codes "re")))
      (strip_known_pc_prefix (as_text (member env (codes "to")))
        (some r.routing.self.legacy_pc_label))
      (option_else (member env (codes "body")) none as_transport_error_body)

unfoldable pub propagate_transport_error : BrokerRemote → Value → BrokerRemote
unfolding relay_error_of inject_from_remote
propagate_transport_error r env =
    option_else (relay_error_of r env) (log_drop r invalid_relay_error)
      λ error. record r { broker = (inject_from_remote r.broker error).0 }
