-- ===== src/Remote/Outbound.antt =====
-- `tryRouteOutbound`: an envelope that leaves for another machine.
use un_bien.Prelude.{Bool, true, false, Text, if◌then◌else◌, option_else}
use un_bien.Prelude.Dict
use un_bien.Envelope.{Envelope, Recipients, one, many}
use un_bien.Remote.Prefix.{with_prefix, parse_address}
use un_bien.Remote.Roster.{peers_request_body}
use un_bien.Remote.State.{
  BrokerRemote, send, send_control_envelope, send_envelope_to_pi, is_active,
  legacy_label_for_pubkey,
}
use un_bien.Remote.Cache.{await_peers_fill}

-- The envelope under the labels that both machines put on the wire.
unfoldable pub rewritten : BrokerRemote → Text → Text → Envelope → Envelope
rewritten r legacy name env = record env {
  from = with_prefix r.routing.self.legacy_pc_label env.from;
  to = one (with_prefix legacy name);
}

-- A sibling whose roster is not cached is asked for it.
unfoldable pub ask_for_peers : BrokerRemote → Text → BrokerRemote
unfolding send_control_envelope await_peers_fill
ask_for_peers r key =
    if Dict.has r.remote_peers key
    then r
    else await_peers_fill (send_control_envelope r key peers_request_body) key

-- With the name of the peer, which the caller has parsed already.
unfoldable pub route_to_canonical_sibling :
    BrokerRemote → Text → Text → Envelope → BrokerRemote × Bool
unfolding rewritten ask_for_peers send_envelope_to_pi legacy_label_for_pubkey
route_to_canonical_sibling r key name env =
    option_else (legacy_label_for_pubkey r key) (r, false)
      λ legacy. (ask_for_peers (send r key (rewritten r legacy name env)) key, true)

unfoldable pub route_to_address : BrokerRemote → Text → Envelope → BrokerRemote × Bool
unfolding route_to_canonical_sibling parse_address
route_to_address r to env =
    option_else (parse_address to) (r, false)
      λ (parsed : Text × Text).
        option_else (Dict.get r.routing.sibling_by_label parsed.0) (r, false)
          λ key. route_to_canonical_sibling r key parsed.1 env

-- Whether the router takes the envelope.
unfoldable pub try_route_to : BrokerRemote → Recipients → Envelope → BrokerRemote × Bool
unfolding route_to_address
try_route_to r (many ts) env = (r, false)
try_route_to r (one to) env =
    if is_active r.lifecycle then route_to_address r to env else (r, false)

unfoldable pub try_route_outbound : BrokerRemote → Envelope → BrokerRemote × Bool
unfolding try_route_to
try_route_outbound r env = try_route_to r env.to env
