-- ===== src/Broker/State.antt =====
-- The broker's state and its writes. Connections are objects that the `peers` map and the sockets'
-- callbacks share, so they live in a store under a number, and the map holds the numbers. What a
-- socket's `write` is given is kept in order; whether `write` throws is the socket's affair, a flag
-- that the environment sets.
use un_bien.Prelude.{
  ℕ, ◌+◌, Bool, true, Option, none, some, List, [], ◌∷◌, ◌++◌, map, Text, text_eq, if◌then◌else◌,
  ◌==◌, option_else,
}
use un_bien.Prelude.Dict
use un_bien.Prelude.Dict.{Dict}
use un_bien.Envelope.{Envelope}
use un_bien.Address.{PeerInfo}

pub data AckStatus : Type 0 where
  received denied unknown_peer : AckStatus

-- The bodies that the broker itself sends: `AckBody` and `SystemBody`.
pub data SystemBody : Type 0 where
  ack : AckStatus → Text → SystemBody
  peer_joined peer_left : Text → SystemBody
  list_peers_reply : List Text → List PeerInfo → SystemBody
  broker_pong : SystemBody

-- One line on a socket: an acknowledgement of a control message, an envelope of the broker's own
-- (to, id, re, body), or a peer's envelope.
pub data Frame : Type 0 where
  register_ack : Text → Text → Frame
  rename_ack : Text → Text → Frame
  system : Text → Text → Option Text → SystemBody → Frame
  forward : Envelope → Frame

pub record PeerConn : Type 0 where
  pub name : Text
  pub cwd : Text
  pub address : Text
  pub destroyed : Bool
  pub refuses : Bool
  pub sent : List Frame

-- The hook for other machines. `key` is the object's identity.
pub record RemoteRouter : Type 0 where
  pub key : ℕ
  pub try_route_outbound : Envelope → Bool
  pub list_remote_peers : List Text
  pub list_remote_peer_infos : List PeerInfo

pub data Via : Type 0 where
  uds relay : Via

-- A line of the audit log, without its time.
pub record AuditEntry : Type 0 where
  pub env : Envelope
  pub delivered : List Text
  pub ack_status : Option AckStatus
  pub via : Via

-- `uuids` are the ids that `uuidv7` returns, in order, of which `minted` are used up.
pub record Broker : Type 0 where
  pub peers : Dict ℕ
  pub conns : ℕ → PeerConn
  pub accepted : ℕ
  pub orphaned : Bool
  pub remote_router : Option RemoteRouter
  pub has_audit : Bool
  pub audit : List AuditEntry
  pub uuids : ℕ → Text
  pub minted : ℕ

unfoldable pub update_conn : Broker → ℕ → (PeerConn → PeerConn) → Broker
update_conn b c f = record b { conns = λ d. if d == c then f (b.conns d) else b.conns d }

-- `socket.write(...)`: nothing, where it throws.
unfoldable pub write : Broker → ℕ → Frame → Option Broker
unfolding update_conn
write b c frame =
    if (b.conns c).refuses
    then none
    else some (update_conn b c (λ p. record p { sent = p.sent ++ (frame ∷ []) }))

-- `try { socket.write(...) } catch {}`
unfoldable pub try_write : Broker → ℕ → Frame → Broker
unfolding write
try_write b c frame = option_else (write b c frame) b (λ b'. b')

unfoldable pub destroy_socket : Broker → ℕ → Broker
unfolding update_conn
destroy_socket b c = update_conn b c (λ p. record p { destroyed = true })

-- An envelope of the broker's, under the next id.
unfoldable pub write_system : Broker → ℕ → Text → Option Text → SystemBody → Broker
unfolding try_write
write_system b c to re body =
    let b' = record b { minted = b.minted + 1 } in
    try_write b' c (system to (b.uuids b.minted) re body)

-- `_broadcastSystem`
unfoldable pub broadcast_to : Dict ℕ → Broker → SystemBody → Text → Broker
unfolding write_system
broadcast_to [] b body excluded = b
broadcast_to ((address, c) ∷ rest) b body excluded =
    broadcast_to rest (if text_eq address excluded then b else write_system b c address none body)
      body excluded

unfoldable pub broadcast_system : Broker → SystemBody → Text → Broker
unfolding broadcast_to
broadcast_system b body excluded = broadcast_to b.peers b body excluded

unfoldable pub set_remote_router : Broker → Option RemoteRouter → Broker
set_remote_router b router = record b { remote_router = router }

unfoldable pub clear_remote_router : Broker → ℕ → Broker
clear_remote_router b expected =
    option_else b.remote_router b λ r. if r.key == expected then set_remote_router b none else b

pub peer_names : Broker → List Text
peer_names b = Dict.keys b.peers

unfoldable pub all_peer_names : Broker → List Text
unfolding peer_names
all_peer_names b = peer_names b ++ option_else b.remote_router [] (λ r. r.list_remote_peers)

unfoldable pub info_of : PeerConn → PeerInfo
info_of p = record { pc = []; cwd = p.cwd; name = p.name; address = p.address }

unfoldable pub local_peer_infos : Broker → List PeerInfo
unfolding info_of
local_peer_infos b = map (λ c. info_of (b.conns c)) (Dict.values b.peers)

unfoldable pub all_peer_infos : Broker → List PeerInfo
unfolding local_peer_infos
all_peer_infos b =
    local_peer_infos b ++ option_else b.remote_router [] (λ r. r.list_remote_peer_infos)
