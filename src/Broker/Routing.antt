-- ===== src/Broker/Routing.antt =====
-- Where an envelope goes, and what a line on a socket does.
use un_bien.Prelude.{
  ℕ, ◌+◌, Bool, true, false, ◌&&◌, not, Option, none, some, List, [], ◌∷◌, ◌++◌, map, Text, text_eq,
  if◌then◌else◌, codes, keep, option_else,
}
use un_bien.Prelude.Dict
use un_bien.Prelude.Dict.{Dict}
use un_bien.Json.{Value, has_type}
use un_bien.Envelope.{Envelope, Recipients, one, many, ok, err, parse, non_empty}
use un_bien.Address.{is_windows_drive_absolute_path, broker_name, broadcast_name}
use un_bien.Broker.State.{
  AckStatus, received, unknown_peer, SystemBody, ack, list_peers_reply, broker_pong, forward, Via,
  uds, Broker, write, write_system, all_peer_names, all_peer_infos,
}
use un_bien.Broker.Registry.{handle_register, handle_rename}

-- `_resolveTargets`
unfoldable pub broadcast_scope : Broker → Text → Text
broadcast_scope b from = option_else (Dict.get b.peers from) [] λ c. (b.conns c).cwd

unfoldable pub in_scope : Broker → Envelope → ℕ → Bool
unfolding broadcast_scope
in_scope b env c =
    not (text_eq (b.conns c).address env.from)
    && text_eq (b.conns c).cwd (broadcast_scope b env.from)

unfoldable pub resolve_targets : Broker → Envelope → List Text
unfolding in_scope
resolve_targets b env = elim env.to [
  | one to ↦
      if text_eq to broadcast_name
      then map (λ c. (b.conns c).address) (keep (in_scope b env) (Dict.values b.peers))
      else if text_eq to env.from
      then []
      else to ∷ []
  | many ts ↦ keep (λ t. not (text_eq t env.from)) ts
]

unfoldable pub send_ack_to_sender : Broker → Envelope → AckStatus → Text → Broker
send_ack_to_sender b env status target =
    option_else (Dict.get b.peers env.from) b
      λ sender. write_system b sender env.from (some env.id) (ack status target)

-- The loop of `_route` over the targets: what it has delivered to, and the status it has given.
pub record Progress : Type 0 where
  pub broker : Broker
  pub delivered : List Text
  pub ack_status : Option AckStatus

-- An envelope to one recipient is acknowledged.
unfoldable pub settle : Bool → Progress → Envelope → AckStatus → Text → Progress
unfolding send_ack_to_sender
settle true p env status target = record p {
  broker = send_ack_to_sender p.broker env status target;
  ack_status = some status;
}
settle false p env status target = p

unfoldable pub deliver_one : Bool → Envelope → Text → Progress → Progress
unfolding settle
deliver_one is_unicast env target p =
    option_else (Dict.get p.broker.peers target) (settle is_unicast p env unknown_peer target) λ c.
      option_else (write p.broker c (forward env)) p λ b.
        settle is_unicast (record p { broker = b; delivered = p.delivered ++ (target ∷ []) }) env
          received target

unfoldable pub deliver_all : Bool → Envelope → List Text → Progress → Progress
unfolding deliver_one
deliver_all is_unicast env [] p = p
deliver_all is_unicast env (target ∷ rest) p =
    deliver_all is_unicast env rest (deliver_one is_unicast env target p)

abbrev pub is_unicast : Recipients → Bool
is_unicast (one to) = not (text_eq to broadcast_name)
is_unicast (many ts) = false

unfoldable pub append_audit : Broker → Envelope → List Text → Option AckStatus → Via → Broker
append_audit b env delivered status via =
    if b.has_audit
    then record b {
      audit =
          b.audit
          ++ (record { env = env; delivered = delivered; ack_status = status; via = via } ∷ []);
    }
    else b

unfoldable pub route_local : Broker → Envelope → Broker
unfolding resolve_targets deliver_all append_audit
route_local b env =
    let start : Progress = record { broker = b; delivered = []; ack_status = none } in
    let done = deliver_all (is_unicast env.to) env (resolve_targets b env) start in
    append_audit done.broker env done.delivered done.ack_status uds

-- A peer whose folder is a Windows drive path is exactly local, whatever its colon looks like.
unfoldable pub is_exact_windows_local : Broker → Text → Bool
is_exact_windows_local b to =
    option_else (Dict.get b.peers to) false λ c. is_windows_drive_absolute_path (b.conns c).cwd

-- Does the router for other machines claim the envelope?
unfoldable pub claimed_remotely : Broker → Envelope → Bool
unfolding is_exact_windows_local
claimed_remotely b env = elim env.to [
  | one to ↦
      not (is_exact_windows_local b to)
      && option_else b.remote_router false (λ r. r.try_route_outbound env)
  | many ts ↦ false
]

abbrev roster : Broker → SystemBody
roster b = list_peers_reply (all_peer_names b) (all_peer_infos b)

unfoldable pub handle_broker_message : Broker → Envelope → Broker
unfolding has_type
handle_broker_message b env = option_else env.body b λ body.
    if has_type body (codes "list_peers")
    then option_else (Dict.get b.peers env.from) (record b { minted = b.minted + 1 })
        (λ c. write_system b c env.from (some env.id) (roster b))
    else b

abbrev pub is_to_broker : Recipients → Bool
is_to_broker (one to) = text_eq to broker_name
is_to_broker (many ts) = false

unfoldable pub route : Broker → Envelope → Broker
unfolding handle_broker_message claimed_remotely route_local
route b env =
    if is_to_broker env.to
    then handle_broker_message b env
    else if claimed_remotely b env
    then b
    else route_local b env

-- `_tryBrokerPing` and `_tryObserverProbe`: the answers to a connection that is not registered.
unfoldable pub answer_probe : Broker → ℕ → Option Value → Option Broker
unfolding has_type
answer_probe b c none = none
answer_probe b c (some v) =
    if has_type v (codes "broker_ping")
    then some (write_system b c (codes "observer") none broker_pong)
    else if has_type v (codes "list_peers")
    then some (write_system b c (codes "observer") none (roster b))
    else none

-- A line of a registered connection: `rename`, or an envelope, whose `from` is made its address.
unfoldable pub handle_envelope : Broker → ℕ → Option Value → Broker
unfolding route
handle_envelope b c line = elim (parse line) [
  | err e ↦ b
  | ok env ↦ route b (record env { from = (b.conns c).address })
]

unfoldable pub handle_registered : Broker → ℕ → Option Value → Broker
unfolding handle_envelope
handle_registered b c none = handle_envelope b c none
handle_registered b c (some v) =
    if has_type v (codes "rename") then handle_rename b c v else handle_envelope b c (some v)

unfoldable pub handle_line : Broker → ℕ → Option Value → Broker
unfolding handle_registered answer_probe
handle_line b c line =
    if non_empty (b.conns c).name
    then handle_registered b c line
    else option_else (answer_probe b c line) (handle_register b c line) (λ b'. b')

-- The lines of a chunk, each as `JSON.parse` reads it, in order.
unfoldable pub handle_lines : Broker → ℕ → List (Option Value) → Broker
handle_lines b c [] = b
handle_lines b c (line ∷ rest) = handle_lines (handle_line b c line) c rest
