-- ===== src/Remote/Lifecycle.antt =====
-- The router's construction, its activation and its end, and the changes of the topology and of the
-- local roster. An operation that may throw and then leaves a changed state comes with a flag, which
-- says that it returned.
use un_bien.Prelude.{
  ℕ, Bool, true, false, ◌&&◌, Option, none, some, List, [], ◌∷◌, Text, if◌then◌else◌, ltb,
  option_else,
}
use un_bien.Prelude.Dict
use un_bien.Prelude.Dict.{Dict}
use un_bien.Json.{Value}
use un_bien.Broker.State.{Broker, RemoteRouter, set_remote_router, clear_remote_router}
use un_bien.Remote.Topology.{
  MeshTopologySnapshot, RoutingState, Checked, ok, ◌>>=◌, build_routing_state,
}
use un_bien.Remote.Roster.{local_peers_body, peers_request_body}
use un_bien.Remote.State.{
  BrokerRemote, PiForwardClient, dormant, active, detached, LifecycleState, send_control_envelope,
  is_active, log, reannounce_failed, local_roster_dropped,
}
use un_bien.Remote.Cache.{clear_all_pending_fills, list_remote_peers, list_remote_peer_infos}
use un_bien.Remote.Outbound.{try_route_outbound}

-- What the router answers to the broker now.
unfoldable pub router_of : BrokerRemote → RemoteRouter
unfolding list_remote_peers list_remote_peer_infos try_route_outbound
router_of r = record {
  key = r.key;
  try_route_outbound = λ env. (try_route_outbound r env).1;
  list_remote_peers = (list_remote_peers r).1;
  list_remote_peer_infos = (list_remote_peer_infos r).1;
}

-- A request and the local roster, to one sibling.
abbrev pub told : BrokerRemote → Text → Value → BrokerRemote
told r key body = send_control_envelope (send_control_envelope r key peers_request_body) key body

-- To each of the siblings.
unfoldable pub announce_to : BrokerRemote → List Text → Value → BrokerRemote
unfolding send_control_envelope
announce_to r [] body = r
announce_to r (key ∷ rest) body = announce_to (told r key body) rest body

-- `_bootstrapWithSiblings`, or nothing where that throws, which it does before it sends.
unfoldable pub bootstrap_with_siblings : BrokerRemote → Option BrokerRemote
unfolding announce_to local_peers_body
bootstrap_with_siblings r =
    option_else (local_peers_body r.broker) none
      λ body. some (announce_to r (Dict.keys r.routing.sibling_by_pubkey) body)

abbrev pub attach : BrokerRemote → BrokerRemote
attach r = record r { listens = true; broker = set_remote_router r.broker (some (router_of r)) }

abbrev pub activated : BrokerRemote → BrokerRemote
activated r = record r {
  topology_refresh_needed = [];
  reannounces = ltb 0 r.reannounce_interval_ms;
  lifecycle = active;
}

abbrev pub rolled_back : BrokerRemote → BrokerRemote
rolled_back r = record r {
  reannounces = false;
  listens = false;
  broker = clear_remote_router r.broker r.key;
  lifecycle = detached;
}

unfoldable pub activate_in : LifecycleState → BrokerRemote → BrokerRemote × Bool
unfolding bootstrap_with_siblings router_of set_remote_router clear_remote_router
activate_in active r = (r, true)
activate_in detached r = (r, false)
activate_in dormant r =
    option_else (bootstrap_with_siblings (attach r)) (rolled_back (attach r), false)
      λ booted. (activated booted, true)

unfoldable pub activate : BrokerRemote → BrokerRemote × Bool
unfolding activate_in
activate r = activate_in r.lifecycle r

abbrev pub stopped : BrokerRemote → BrokerRemote
stopped r =
    record (clear_all_pending_fills (record r { reannounces = false; lifecycle = detached })) {
      topology_refresh_needed = [];
    }

unfoldable pub detach_in : LifecycleState → BrokerRemote → BrokerRemote
unfolding clear_all_pending_fills clear_remote_router
detach_in detached r = r
detach_in dormant r = stopped r
detach_in active r =
    let r' = stopped r in
    record r' { listens = false; broker = clear_remote_router r'.broker r'.key }

unfoldable pub detach : BrokerRemote → BrokerRemote
unfolding detach_in
detach r = detach_in r.lifecycle r

abbrev pub has_entries : Dict Text → Bool
has_entries [] = false
has_entries (e ∷ m) = true

abbrev pub has_siblings : BrokerRemote → Bool
has_siblings r = has_entries r.routing.sibling_by_pubkey

-- The timer's turn.
unfoldable pub reannounce : BrokerRemote → BrokerRemote
unfolding bootstrap_with_siblings
reannounce r =
    if r.reannounces && is_active r.lifecycle && has_siblings r
    then (option_else (bootstrap_with_siblings r) (log r reannounce_failed)
        λ booted. record booted { topology_refresh_needed = [] })
    else r

abbrev pub initial : ℕ → Broker → PiForwardClient → ℕ → ℕ → RoutingState → BrokerRemote
initial key broker pi ttl interval routing = record {
  key = key;
  broker = broker;
  pi = pi;
  now = 0;
  technical_self_pubkey = routing.self.pc_pubkey;
  cache_ttl_ms = ttl;
  reannounce_interval_ms = interval;
  routing = routing;
  remote_peers = [];
  topology_refresh_needed = [];
  pending_fills = [];
  fills = 0;
  filled = [];
  listens = false;
  reannounces = false;
  lifecycle = dormant;
  logged = [];
}

abbrev pub default_cache_ttl_ms : ℕ
default_cache_ttl_ms = 300000

abbrev pub default_reannounce_interval_ms : ℕ
default_reannounce_interval_ms = 120000

unfoldable pub send_to_each : BrokerRemote → List Text → Value → BrokerRemote
unfolding send_control_envelope
send_to_each r [] body = r
send_to_each r (key ∷ rest) body = send_to_each (send_control_envelope r key body) rest body

unfoldable pub on_local_peers_changed : BrokerRemote → BrokerRemote
unfolding send_to_each local_peers_body
on_local_peers_changed r =
    if is_active r.lifecycle && has_siblings r
    then (option_else (local_peers_body r.broker) (log r local_roster_dropped)
        λ body. send_to_each r (Dict.keys r.routing.sibling_by_pubkey) body)
    else r

module _ (canonical : Text → Option Text) where
  -- The constructor, with `activateOnConstruct` as false.
  unfoldable pub construct :
      ℕ → Broker → PiForwardClient → ℕ → ℕ → MeshTopologySnapshot → Checked BrokerRemote
  unfolding build_routing_state
  construct key broker pi ttl interval topology = do
    routing ← build_routing_state canonical topology none
    ok (initial key broker pi ttl interval routing)
