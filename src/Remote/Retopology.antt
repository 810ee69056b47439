-- ===== src/Remote/Retopology.antt =====
-- `setTopology`: what is kept for siblings that are gone is dropped, and whom the change concerns is told
-- again.
use un_bien.Prelude.{
  Bool, true, false, ◌||◌, not, Option, none, some, List, [], ◌∷◌, Text, text_eq, if◌then◌else◌,
  option_else, keep,
}
use un_bien.Prelude.Dict
use un_bien.Prelude.Dict.{Dict}
use un_bien.Json.{Value}
use un_bien.Remote.Topology.{
  MeshTopologySnapshot, RoutingState, Checked, ok, err, ◌>>=◌, is_detached, build_routing_state,
}
use un_bien.Remote.Roster.{local_peers_body}
use un_bien.Remote.State.{
  BrokerRemote, send_control_envelope, is_active, is_detached_state, add_keys, remove_key, log,
  topology_refresh_failed,
}
use un_bien.Remote.Cache.{forget_peers, clear_pending_fills}
use un_bien.Remote.Lifecycle.{told}

-- Whether the sibling's alias or legacy label is another than before.
abbrev pub is_relabelled : RoutingState → RoutingState → Text × Text → Bool
is_relabelled previous next (key, alias) =
    not
      (option_else (Dict.get previous.sibling_by_pubkey key) false (λ before. text_eq before alias))
    || not (
        same_label (Dict.get previous.sibling_legacy_label_by_pubkey key)
          (Dict.get next.sibling_legacy_label_by_pubkey key))
  where
    same_label : Option Text → Option Text → Bool
    same_label none none = true
    same_label none (some t) = false
    same_label (some s) none = false
    same_label (some s) (some t) = text_eq s t

abbrev pub is_self_relabelled : RoutingState → RoutingState → Bool
is_self_relabelled previous next =
    not (text_eq previous.self.pc_label next.self.pc_label)
    || not (text_eq previous.self.legacy_pc_label next.self.legacy_pc_label)

-- The siblings that are to be told again.
unfoldable pub refresh_keys : List Text → RoutingState → RoutingState → List Text
refresh_keys needed previous next =
    let changed =
      add_keys needed (Dict.keys (keep (is_relabelled previous next) next.sibling_by_pubkey)) in
    if is_self_relabelled previous next
    then add_keys changed (Dict.keys next.sibling_by_pubkey)
    else changed

abbrev pub refreshed : BrokerRemote → Text → Value → BrokerRemote
refreshed r key body = record (told r key body) {
  topology_refresh_needed = remove_key (told r key body).topology_refresh_needed key;
}

-- Nothing that is sent throws, so no refresh fails once there is a roster.
unfoldable pub refresh_each : BrokerRemote → List Text → Value → BrokerRemote
unfolding send_control_envelope
refresh_each r [] body = r
refresh_each r (key ∷ rest) body = refresh_each (refreshed r key body) rest body

unfoldable pub refresh : BrokerRemote → List Text → BrokerRemote
unfolding refresh_each local_peers_body
refresh r [] = r
refresh r (key ∷ rest) =
    option_else (local_peers_body r.broker)
      (log (record r { topology_refresh_needed = add_keys r.topology_refresh_needed (key ∷ rest) })
        topology_refresh_failed)
      λ body. refresh_each r (key ∷ rest) body

-- `for (key of keys) if (!known.has(key)) drop(key)`
unfoldable pub drop_unknown :
    (BrokerRemote → Text → BrokerRemote) → Dict Text → BrokerRemote → List Text → BrokerRemote
drop_unknown drop known r [] = r
drop_unknown drop known r (key ∷ rest) =
    drop_unknown drop known (if Dict.has known key then r else drop r key) rest

abbrev pub forget_refresh : BrokerRemote → Text → BrokerRemote
forget_refresh r key = record r {
  topology_refresh_needed = remove_key r.topology_refresh_needed key;
}

-- What is kept for keys that the new tables no longer have is dropped.
unfoldable pub prune : BrokerRemote → Dict Text → BrokerRemote
unfolding drop_unknown clear_pending_fills
prune r known =
    let cached = drop_unknown forget_peers known r (Dict.keys r.remote_peers) in
    let filled = drop_unknown clear_pending_fills known cached (Dict.keys cached.pending_fills) in
    drop_unknown forget_refresh known filled filled.topology_refresh_needed

unfoldable pub replace_routing : BrokerRemote → RoutingState → BrokerRemote
unfolding prune refresh refresh_keys
replace_routing r replacement =
    let pruned = record (prune r replacement.sibling_by_pubkey) { routing = replacement } in
    if is_active pruned.lifecycle
    then refresh pruned (refresh_keys pruned.topology_refresh_needed r.routing replacement)
    else pruned

module _ (canonical : Text → Option Text) where
  unfoldable pub set_topology : BrokerRemote → MeshTopologySnapshot → Checked BrokerRemote
  unfolding build_routing_state replace_routing
  set_topology r next =
      if is_detached_state r.lifecycle
      then err is_detached
      else build_routing_state canonical next (some r.technical_self_pubkey) >>= λ replacement.
          ok (replace_routing r replacement)
