-- ===== src/Remote/State.antt =====
-- The router's state, and what it sends. The relay's connection may be down, which loses a frame;
-- nothing that the router calls to send throws.
use un_bien.Prelude.{
  ℕ, ◌+◌, Bool, true, false, ◌&&◌, ◌||◌, not, Option, none, some, List, [], ◌∷◌, ◌++◌, Text,
  text_eq, if◌then◌else◌, codes, option_else, keep, contains,
}
use un_bien.Prelude.Dict
use un_bien.Prelude.Dict.{Dict}
use un_bien.Json.{Value, member, as_text, is_object, has_type}
use un_bien.Envelope.{Envelope, one}
use un_bien.Broker.State.{Broker}
use un_bien.Remote.Prefix.{with_prefix}
use un_bien.Remote.Topology.{RoutingState}
use un_bien.Remote.Roster.{WirePeerInfo}

-- A `pi_envelope` frame, by its address and its envelope.
pub record PiEnvelopeFrame : Type 0 where
  pub to_pc : Text
  pub envelope : Envelope

-- `relay_down` says that the relay's `send` throws.
pub record PiForwardClient : Type 0 where
  pub detached : Bool
  pub relay_down : Bool
  pub sent : List PiEnvelopeFrame

unfoldable pub send_envelope_to_pi : PiForwardClient → Text → Envelope → PiForwardClient
send_envelope_to_pi pi to_pc env =
    if pi.detached || pi.relay_down
    then pi
    else record pi { sent = pi.sent ++ (record { to_pc = to_pc; envelope = env } ∷ []) }

abbrev pub detach_pi : PiForwardClient → PiForwardClient
detach_pi pi = record pi { detached = true }

-- The envelope and the sender's key that a line of the relay's is an event for. A client that is
-- detached no longer listens.
unfoldable pub incoming_frame : Value → Option (Value × Text)
unfolding member as_text is_object
incoming_frame v = option_else (as_text (member v (codes "from_pc"))) none λ from_pc.
    option_else (member v (codes "envelope")) none λ env.
      option_else (as_text (member env (codes "from"))) none λ from.
        option_else (as_text (member env (codes "id"))) none
          λ id. if is_object env then some (env, from_pc) else none

unfoldable pub handle_pi_line : PiForwardClient → Option Value → Option (Value × Text)
unfolding incoming_frame has_type
handle_pi_line pi none = none
handle_pi_line pi (some v) =
    if not pi.detached && has_type v (codes "pi_envelope_in") then incoming_frame v else none

pub record RemotePeerEntry : Type 0 where
  pub infos : List WirePeerInfo
  pub pc_pubkey : Text
  pub ts : ℕ

pub data LifecycleState : Type 0 where
  dormant active detached : LifecycleState

pub data DropReason : Type 0 where
  invalid_from_pc unknown_from_pc invalid_to invalid_cross_pc_address : DropReason
  invalid_envelope invalid_peers_update invalid_relay_error : DropReason

pub data LogEvent : Type 0 where
  drop : DropReason → LogEvent
  reannounce_failed topology_refresh_failed local_roster_dropped : LogEvent
  control_reply_failed : LogEvent

-- The router, with the broker and the client that it holds and the time of the clock. `key` is the
-- object's identity. `remote_peers`, `refresh_needed` and `pending_fills` are keyed by the public
-- key of a sibling; a pending fill is a number, the ones that are resolved are listed in `filled`.
-- `listens` and `reannounces` say that the client's listener and the timer are set.
pub record BrokerRemote : Type 0 where
  pub key : ℕ
  pub broker : Broker
  pub pi : PiForwardClient
  pub now : ℕ
  pub technical_self_pubkey : Text
  pub cache_ttl_ms : ℕ
  pub reannounce_interval_ms : ℕ
  pub routing : RoutingState
  pub remote_peers : Dict RemotePeerEntry
  pub topology_refresh_needed : List Text
  pub pending_fills : Dict (List ℕ)
  pub fills : ℕ
  pub filled : List ℕ
  pub listens : Bool
  pub reannounces : Bool
  pub lifecycle : LifecycleState
  pub logged : List LogEvent

abbrev pub is_active : LifecycleState → Bool
is_active active = true
is_active _ = false

abbrev pub is_detached_state : LifecycleState → Bool
is_detached_state detached = true
is_detached_state _ = false

-- `new Set` of texts: `add` and `delete`.
abbrev pub add_key : List Text → Text → List Text
add_key ks k = if contains ks k then ks else ks ++ (k ∷ [])

abbrev pub remove_key : List Text → Text → List Text
remove_key ks k = keep (λ j. not (text_eq j k)) ks

abbrev pub add_keys : List Text → List Text → List Text
add_keys ks [] = ks
add_keys ks (k ∷ more) = add_keys (add_key ks k) more

abbrev pub log : BrokerRemote → LogEvent → BrokerRemote
log r event = record r { logged = r.logged ++ (event ∷ []) }

abbrev pub log_drop : BrokerRemote → DropReason → BrokerRemote
log_drop r reason = log r (drop reason)

-- `uuidv7()`
abbrev pub next_id : BrokerRemote → Text
next_id r = r.broker.uuids r.broker.minted

abbrev pub take_id : BrokerRemote → BrokerRemote
take_id r = record r { broker = record r.broker { minted = r.broker.minted + 1 } }

abbrev pub send : BrokerRemote → Text → Envelope → BrokerRemote
send r to_pc env = record r { pi = send_envelope_to_pi r.pi to_pc env }

abbrev pub broker_remote_name : Text
broker_remote_name = codes "_broker_remote"

unfoldable pub legacy_label_for_pubkey : BrokerRemote → Text → Option Text
legacy_label_for_pubkey r key = Dict.get r.routing.sibling_legacy_label_by_pubkey key

-- The envelope of `_sendControlEnvelope`.
unfoldable pub control_envelope : BrokerRemote → Text → Value → Envelope
unfolding legacy_label_for_pubkey
control_envelope r to_pc body = record {
  from = with_prefix r.routing.self.legacy_pc_label broker_remote_name;
  to = one (
      with_prefix (option_else (legacy_label_for_pubkey r to_pc) (codes "?") (λ t. t))
        broker_remote_name);
  id = next_id r;
  re = none;
  body = some body;
}

unfoldable pub send_control_envelope : BrokerRemote → Text → Value → BrokerRemote
unfolding control_envelope send_envelope_to_pi
send_control_envelope r to_pc body = send (take_id r) to_pc (control_envelope r to_pc body)
