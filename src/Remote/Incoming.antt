-- ===== src/Remote/Incoming.antt =====
-- `handleIncoming`: an envelope that the relay brings from another machine, whose key the relay has
-- verified, or an error of the relay's own. The envelope is an object of any fields.
use un_bien.Prelude.{
  Bool, false, ◌&&◌, Option, some, Text, text_eq, if◌then◌else◌, codes, option_else,
}
use un_bien.Prelude.Dict
use un_bien.Json.{Value, str, obj, end, field, member, as_text, has_type, with_member}
use un_bien.Envelope.{Envelope, Recipients, Result, one, many, ok, err, parse}
use un_bien.Address.{broker_name}
use un_bien.Broker.Inject.{inject_from_remote, InjectStatus}
use un_bien.Remote.Prefix.{with_prefix, strip_known_pc_prefix}
use un_bien.Remote.Roster.{local_peers_body, parse_peers_update}
use un_bien.Remote.State.{
  BrokerRemote, is_active, log, log_drop, send, next_id, take_id, send_envelope_to_pi,
  send_control_envelope, broker_remote_name, legacy_label_for_pubkey, invalid_from_pc,
  unknown_from_pc, invalid_to, invalid_cross_pc_address, invalid_envelope, invalid_peers_update,
  control_reply_failed,
}
use un_bien.Remote.Cache.{set_remote_cache}
use un_bien.Remote.Errors.{relay_name, propagate_transport_error}

abbrev pub json_of_status : InjectStatus → Text
json_of_status InjectStatus.received = codes "received"
json_of_status InjectStatus.denied = codes "denied"

-- `AckBody`
abbrev pub ack_body : InjectStatus → Text → Value
ack_body status target = obj (
    field (codes "type") (str (codes "ack")) (
      field (codes "status") (str (json_of_status status))
        (field (codes "target") (str target) end)))

unfoldable pub ack_envelope : BrokerRemote → Text → Envelope → InjectStatus → Text → Envelope
ack_envelope r to normalized status target = record {
  from = with_prefix r.routing.self.legacy_pc_label broker_name;
  to = one to;
  id = next_id r;
  re = some normalized.id;
  body = some (ack_body status target);
}

-- The envelope goes to the broker, and what came of that back to the sender's machine, unless the
-- envelope is such an answer itself.
unfoldable pub deliver : BrokerRemote → Text → Text → Envelope → Text → BrokerRemote
unfolding inject_from_remote ack_envelope send_envelope_to_pi has_type
deliver r key raw_from normalized target =
    let (broker, status) = inject_from_remote r.broker normalized in
    let r' = record r { broker = broker } in
    if option_else normalized.body false (λ b. has_type b (codes "ack"))
    then r'
    else send (take_id r') key (ack_envelope r' raw_from normalized status target)

unfoldable pub take_peers_update : BrokerRemote → Text → Value → BrokerRemote
unfolding parse_peers_update set_remote_cache
take_peers_update r key body =
    option_else (parse_peers_update body) (log_drop r invalid_peers_update)
      λ infos. set_remote_cache r key infos

unfoldable pub answer_peers_request : BrokerRemote → Text → BrokerRemote
unfolding local_peers_body send_control_envelope
answer_peers_request r key =
    option_else (local_peers_body r.broker) (log r control_reply_failed)
      λ body. send_control_envelope r key body

-- What the two routers say to each other.
unfoldable pub handle_control : BrokerRemote → Text → Text → Envelope → Text → Value → BrokerRemote
unfolding take_peers_update answer_peers_request deliver has_type
handle_control r key raw_from normalized target body =
    if has_type body (codes "peers_update")
    then take_peers_update r key body
    else if has_type body (codes "peers_request")
    then answer_peers_request r key
    else deliver r key raw_from normalized target

unfoldable pub handle_addressed :
    BrokerRemote → Text → Text → Bool → Envelope → Recipients → BrokerRemote
unfolding handle_control deliver
handle_addressed r key raw_from is_control normalized (many ts) = log_drop r invalid_envelope
handle_addressed r key raw_from is_control normalized (one target) =
    option_else normalized.body (deliver r key raw_from normalized target) λ body.
      if is_control
      then handle_control r key raw_from normalized target body
      else deliver r key raw_from normalized target

unfoldable pub handle_normalized : BrokerRemote → Text → Text → Bool → Envelope → BrokerRemote
unfolding handle_addressed
handle_normalized r key raw_from is_control normalized =
    handle_addressed r key raw_from is_control normalized normalized.to

abbrev pub with_addresses : Value → Text → Text → Value
with_addresses env from to =
    with_member (with_member env (codes "from") (str from)) (codes "to") (str to)

abbrev pub is_control_endpoint : Text → Text → Bool
is_control_endpoint sender target =
    text_eq sender broker_remote_name && text_eq target broker_remote_name

unfoldable pub handle_parsed : BrokerRemote → Text → Text → Bool → Result Envelope → BrokerRemote
unfolding handle_normalized
handle_parsed r key raw_from is_control (err e) = log_drop r invalid_envelope
handle_parsed r key raw_from is_control (ok normalized) =
    handle_normalized r key raw_from is_control normalized

-- With the sender's address and the target's within their machines.
unfoldable pub handle_local : BrokerRemote → Text → Text → Text → Value → Text → Text → BrokerRemote
unfolding handle_parsed parse with_member
handle_local r key alias raw_from env sender target =
    handle_parsed r key raw_from (is_control_endpoint sender target)
      (parse (some (with_addresses env (with_prefix alias sender) target)))

-- An envelope of the sibling with the canonical key and the local alias.
unfoldable pub handle_from_sibling : BrokerRemote → Text → Text → Value → BrokerRemote
unfolding handle_local strip_known_pc_prefix member as_text legacy_label_for_pubkey
handle_from_sibling r key alias env =
    option_else (as_text (member env (codes "to"))) (log_drop r invalid_to) λ to.
      option_else (as_text (member env (codes "from"))) (log_drop r invalid_cross_pc_address)
        λ from.
          option_else (strip_known_pc_prefix (some from) (legacy_label_for_pubkey r key))
            (log_drop r invalid_cross_pc_address)
            λ sender.
              option_else (strip_known_pc_prefix (some to) (some r.routing.self.legacy_pc_label))
                (log_drop r invalid_cross_pc_address)
                λ target. handle_local r key alias from env sender target

module _ (canonical : Text → Option Text) where
  unfoldable pub handle_from_pc : BrokerRemote → Value → Text → BrokerRemote
  unfolding handle_from_sibling
  handle_from_pc r env from_pc = option_else (canonical from_pc) (log_drop r invalid_from_pc) λ key.
      option_else (Dict.get r.routing.sibling_by_pubkey key) (log_drop r unknown_from_pc)
        λ alias. handle_from_sibling r key alias env

  unfoldable pub handle_incoming : BrokerRemote → Value → Text → BrokerRemote
  unfolding handle_from_pc propagate_transport_error
  handle_incoming r env from_pc =
      if is_active r.lifecycle
      then (if text_eq from_pc relay_name
          then propagate_transport_error r env
          else handle_from_pc r env from_pc)
      else r

abbrev pub federated_ack : BrokerRemote → Text → Envelope → InjectStatus → Text → Envelope
federated_ack r to normalized status target = record {
  from = broker_name;
  to = one to;
  id = next_id r;
  re = some normalized.id;
  body = some (ack_body status target);
}

unfoldable pub deliver_federated :
    BrokerRemote → Text → Text → Text → Result Envelope → BrokerRemote
unfolding inject_from_remote send_envelope_to_pi has_type
deliver_federated r key raw_from raw_to (err e) = log_drop r invalid_envelope
deliver_federated r key raw_from raw_to (ok normalized) =
    let (broker, status) = inject_from_remote r.broker normalized in
    let r' = record r { broker = broker } in
    if option_else normalized.body false (λ b. has_type b (codes "ack"))
    then r'
    else send (take_id r') key (federated_ack r' raw_from normalized status raw_to)

-- `_handleFederatedIncoming`, which nothing calls: the addresses have no prefix. A sender that is no
-- string does not pass the parser.
handle_federated_incoming : BrokerRemote → Value → Text → BrokerRemote
unfolding deliver_federated parse member as_text
handle_federated_incoming r env key =
    option_else (as_text (member env (codes "to"))) (log_drop r invalid_to) λ to.
      option_else (as_text (member env (codes "from"))) (log_drop r invalid_envelope)
        λ from. deliver_federated r key from to (parse (some env))
