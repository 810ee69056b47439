-- ===== src/Remote/Steps.antt =====
-- Everything that happens to a router, as a step relation, and what is true of every router that can
-- come about. What the broker holds of the router is its answers, which are renewed after each step.
use un_bien.Prelude.{
  ◌≡◌, refl, ℕ, ◌+◌, Option, none, some, [], Text, arith, if◌then◌else◌, option_else, ◌==◌,
}
use un_bien.Prelude.Dict
use un_bien.Prelude.Dict.{Dict}
use un_bien.Json.{Value}
use un_bien.Envelope.{Envelope}
use un_bien.Broker.State.{Broker, RemoteRouter}
use un_bien.Broker.Steps
use un_bien.Remote.Topology.{RoutingState, MeshTopologySnapshot, Checked, build_routing_state}
use un_bien.Remote.Topology
use un_bien.Remote.Tables.{build_routing_state-IsRouting, Sure, Sure-ok, Sure-bind, Sure-if}
use un_bien.Remote.State.{BrokerRemote, PiForwardClient, is_detached_state}
use un_bien.Remote.Cache.{fill_times_out, list_remote_peer_infos, get_remote_peers}
use un_bien.Remote.Lifecycle.{
  router_of, activate, detach, reannounce, construct, on_local_peers_changed,
}
use un_bien.Remote.Retopology.{set_topology}
use un_bien.Remote.Outbound.{try_route_outbound}
use un_bien.Remote.Incoming.{handle_incoming}
use un_bien.Remote.Keyed.{
  Sound, Within, fill_times_out-Sound, list_remote_peer_infos-Sound, get_remote_peers-Sound,
}
use un_bien.Remote.Pruning.{replace_routing-Sound}
use un_bien.Remote.Serving.{
  none-needed, activate-Sound, detach-Sound, reannounce-Sound, on_local_peers_changed-Sound,
  try_route_outbound-Sound,
}
use un_bien.Remote.Hearing.{handle_incoming-Sound}

-- A broker that asks the router calls its methods: the answers it has are the current ones.
abbrev pub renewed : BrokerRemote → BrokerRemote
renewed r = record r {
  broker = record r.broker {
    remote_router =
        option_else r.broker.remote_router none
          λ (held : RemoteRouter). some (if held.key == r.key then router_of r else held);
  };
}

module _ (canonical : Text → Option Text) where
  -- The code's own operations, as the relay, the session, the broker and the clock call them; the
  -- broker's steps between; and the environment's.
  pub data Step (r : BrokerRemote) : BrokerRemote → Type 0 where
    activates : Step r (renewed (activate r).0)
    detaches : Step r (renewed (detach r))
    changes_topology :
        (topology : MeshTopologySnapshot) (r' : BrokerRemote)
        → set_topology canonical r topology ≡ Topology.ok r'
        → Step r (renewed r')
    hears :
        (env : Value) (from_pc : Text) → Step r (renewed (handle_incoming canonical r env from_pc))
    routes : (env : Envelope) → Step r (renewed (try_route_outbound r env).0)
    tells_peers : Step r (renewed (on_local_peers_changed r))
    reannounces : Step r (renewed (reannounce r))
    times_out : (key : Text) (slot : ℕ) → Step r (renewed (fill_times_out r key slot))
    lists : Step r (renewed (list_remote_peer_infos r).0)
    looks_up : (label : Text) → Step r (renewed (get_remote_peers r label).0)
    broker_moves :
        (broker : Broker) → Steps.Step r.broker broker → Step r (record r { broker = broker })
    time_passes : (ms : ℕ) → Step r (renewed (record r { now = r.now + ms }))
    client_changes : (pi : PiForwardClient) → Step r (record r { pi = pi })

  pub data Reach (r : BrokerRemote) : BrokerRemote → Type 0 where
    here : Reach r r
    next : {r' r'' : BrokerRemote} → Reach r r' → Step r' r'' → Reach r r''

  set_topology-Sound :
      (r : BrokerRemote) (topology : MeshTopologySnapshot)
      → Sound r
      → Sure Sound (set_topology canonical r topology)
  unfolding set_topology
  set_topology-Sound r topology w = Sure-if Sound (is_detached_state r.lifecycle) _ _ λ _.
      Sure-bind Sound (build_routing_state canonical topology (some r.technical_self_pubkey)) _
        λ s h.
          replace_routing-Sound r s w
            (build_routing_state-IsRouting canonical topology (some r.technical_self_pubkey) s h)

  Step-Sound : (r r' : BrokerRemote) → Sound r → Step r r' → Sound r'
  Step-Sound r r' w activates = activate-Sound r w
  Step-Sound r r' w detaches = detach-Sound r w
  Step-Sound r r' w (changes_topology topology m h) =
      Sure-ok Sound (set_topology canonical r topology) m (set_topology-Sound r topology w) h
  Step-Sound r r' w (hears env from_pc) = handle_incoming-Sound canonical r env from_pc w
  Step-Sound r r' w (routes env) = try_route_outbound-Sound r env w
  Step-Sound r r' w tells_peers = on_local_peers_changed-Sound r w
  Step-Sound r r' w reannounces = reannounce-Sound r w
  Step-Sound r r' w (times_out key slot) = fill_times_out-Sound r key slot w
  Step-Sound r r' w lists = list_remote_peer_infos-Sound r w
  Step-Sound r r' w (looks_up label) = get_remote_peers-Sound r label w
  Step-Sound r r' w (broker_moves broker s) = w
  Step-Sound r r' w (time_passes ms) = w
  Step-Sound r r' w (client_changes pi) = w

  Reach-keeps : (r r' : BrokerRemote) → Sound r → Reach r r' → Sound r'
  Reach-keeps r r' w here = w
  Reach-keeps r r' w (next {r' = m} path step) = Step-Sound m r' (Reach-keeps r m w path) step

  none-held {ℓ} : {V : Type ℓ} (m : Dict V) (known : Dict Text) → m ≡ [] → Within (Dict.has m) known
  unfolding Dict.get
  none-held m known e k h = absurd (ground (arith, e))

  construct-Sound :
      (key : ℕ) (broker : Broker) (pi : PiForwardClient) (ttl interval : ℕ)
      (topology : MeshTopologySnapshot)
      → Sure Sound (construct canonical key broker pi ttl interval topology)
  unfolding construct
  construct-Sound key broker pi ttl interval topology =
      Sure-bind Sound (build_routing_state canonical topology none) _ λ s h. record {
        tables = build_routing_state-IsRouting canonical topology none s h;
        cached = none-held _ _ refl;
        awaited = none-held _ _ refl;
        retried = none-needed _;
        heard = refl;
      }

  -- In every router that comes about from a construction by the router's operations, in any order and
  -- number, with steps of the broker, the clock and the client between them: the tables name each
  -- sibling by one alias and each alias one sibling; whatever is cached, awaited or to be told again
  -- stands under the key of a sibling; and the router listens to the relay exactly while it is active.
  pub Reach-Sound :
      (key : ℕ) (broker : Broker) (pi : PiForwardClient) (ttl interval : ℕ)
      (topology : MeshTopologySnapshot) (r r' : BrokerRemote)
      → construct canonical key broker pi ttl interval topology ≡ Topology.ok r
      → Reach r r'
      → Sound r'
  Reach-Sound key broker pi ttl interval topology r r' h path =
      Reach-keeps r r' (Sure-ok Sound _ r (construct-Sound key broker pi ttl interval topology) h)
        path
