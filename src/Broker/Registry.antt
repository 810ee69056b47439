-- ===== src/Broker/Registry.antt =====
-- Who is connected and under which address: accepting, registering, renaming, closing, orphaning.
use un_bien.Prelude.{
  ℕ, ◌+◌, Bool, true, false, Option, none, some, [], ◌∷◌, Text, if◌then◌else◌, codes, ◌==◌,
  option_else,
}
use un_bien.Prelude.Dict
use un_bien.Prelude.Dict.{Dict}
use un_bien.Json.{Value, member, as_text, is_true, has_type}
use un_bien.Envelope.{non_empty}
use un_bien.Address.{is_valid_registered_cwd}
use un_bien.Broker.State.{
  peer_joined, peer_left, register_ack, rename_ack, PeerConn, Broker, update_conn, try_write,
  destroy_socket, broadcast_system,
}
use un_bien.Broker.Naming.{Identity, identity_for_register}

-- `peers.get(address)` and what it clears on the object, so that the late close event of the old
-- socket finds nothing to delete.
unfoldable pub drop_peer_at : Broker → Text → Broker
unfolding update_conn
drop_peer_at b address = option_else (Dict.get b.peers address) b λ old.
    record (update_conn b old (λ p. record p { address = []; destroyed = true })) {
      peers = Dict.delete b.peers address;
    }

-- A checked `register` message.
pub record RegisterRequest : Type 0 where
  pub name : Text
  pub cwd : Text
  pub takeover : Bool

-- An absent folder is the empty one; one that is no valid path refuses the request.
unfoldable pub register_cwd : Option Value → Option Text
register_cwd none = some []
register_cwd (some v) =
    option_else (as_text (some v)) none
      λ cwd. if is_valid_registered_cwd cwd then some cwd else none

unfoldable pub register_request : Option Value → Option RegisterRequest
unfolding register_cwd member as_text has_type is_true
register_request none = none
register_request (some v) =
    if has_type v (codes "register")
    then (option_else (as_text (member v (codes "name"))) none λ name.
        option_else (register_cwd (member v (codes "cwd"))) none λ cwd.
          some
            (record { name = name; cwd = cwd; takeover = is_true (member v (codes "takeover")) }))
    else none

-- The rest of `_handleRegister`, once there is an identity: first the registry, then the news.
unfoldable pub name_conn : Broker → ℕ → Text → Identity → Broker
unfolding update_conn
name_conn b c cwd identity =
    update_conn b c (λ p. record p { cwd = cwd; name = identity.name; address = identity.address })

unfoldable pub evict : Broker → Identity → Broker
unfolding drop_peer_at
evict b identity = if identity.replaces then drop_peer_at b identity.address else b

unfoldable pub enter : Broker → ℕ → Text → Identity → Broker
unfolding name_conn evict
enter b c cwd identity =
    let evicted = evict (name_conn b c cwd identity) identity in
    record evicted { peers = Dict.set evicted.peers identity.address c }

unfoldable pub admit : Broker → ℕ → Text → Identity → Broker
unfolding enter
admit b c cwd identity =
    let entered = enter b c cwd identity in
    let acked = try_write entered c (register_ack identity.address identity.name) in
    broadcast_system acked (peer_joined identity.address) identity.address

unfoldable pub handle_register : Broker → ℕ → Option Value → Broker
unfolding register_request admit destroy_socket
handle_register b c line = option_else (register_request line) (destroy_socket b c) λ req.
    option_else (identity_for_register b.peers req.cwd req.name req.takeover) (destroy_socket b c)
      (admit b c req.cwd)

unfoldable pub send_rename_ack : Broker → ℕ → Broker
send_rename_ack b c = try_write b c (rename_ack (b.conns c).name (b.conns c).address)

unfoldable pub move : Broker → ℕ → Identity → Broker
unfolding update_conn
move b c identity =
    let named =
      update_conn b c (λ p. record p { name = identity.name; address = identity.address }) in
    record named { peers = Dict.set (Dict.delete b.peers (b.conns c).address) identity.address c }

unfoldable pub renamed : Broker → ℕ → Identity → Broker
unfolding move send_rename_ack
renamed b c identity =
    let old = (b.conns c).address in
    let left = broadcast_system (move b c identity) (peer_left old) identity.address in
    let joined = broadcast_system left (peer_joined identity.address) identity.address in
    send_rename_ack joined c

-- Where there is no new name, the entry goes back in, last.
unfoldable pub put_back : Broker → ℕ → Broker
put_back b c =
    let old = (b.conns c).address in record b { peers = Dict.set (Dict.delete b.peers old) old c }

unfoldable pub restored : Broker → ℕ → Broker
unfolding put_back send_rename_ack
restored b c = send_rename_ack (put_back b c) c

-- `_handleRename`, for a name that is given. Its own entry is out of the way for the search.
unfoldable pub rename_to : Broker → ℕ → Text → Broker
unfolding renamed restored
rename_to b c name =
    let freed = Dict.delete b.peers (b.conns c).address in
    option_else (identity_for_register freed (b.conns c).cwd name false) (restored b c)
      (renamed b c)

unfoldable pub handle_rename : Broker → ℕ → Value → Broker
unfolding rename_to send_rename_ack member as_text
handle_rename b c control =
    option_else (as_text (member control (codes "name"))) (send_rename_ack b c)
      λ name. if non_empty name then rename_to b c name else send_rename_ack b c

-- The socket's close event, by which time the socket is gone.
unfoldable pub on_close : Broker → ℕ → Broker
unfolding destroy_socket
on_close b c =
    let closed = destroy_socket b c in
    let address = (b.conns c).address in
    if non_empty address
    then (option_else (Dict.get b.peers address) closed λ d.
        if d == c
        then broadcast_system (record closed { peers = Dict.delete b.peers address })
            (peer_left address) address
        else closed)
    else closed

unfoldable pub destroy_all : Dict ℕ → Broker → Broker
unfolding destroy_socket
destroy_all [] b = b
destroy_all ((address, c) ∷ rest) b = destroy_all rest (destroy_socket b c)

-- `close`, up to the server's own closing.
unfoldable pub close_all : Broker → Broker
unfolding destroy_all
close_all b = record (destroy_all b.peers b) { peers = [] }

unfoldable pub orphan : Broker → Broker
unfolding close_all
orphan b = record (close_all b) { orphaned = true }

abbrev pub fresh_conn : PeerConn
fresh_conn = record {
  name = [];
  cwd = [];
  address = [];
  destroyed = false;
  refuses = false;
  sent = [];
}

-- The server's connection event. An orphaned broker has a second listener, which destroys.
unfoldable pub handle_connection : Broker → Broker
unfolding update_conn destroy_socket
handle_connection b =
    let c = b.accepted in
    let connected = record (update_conn b c (λ _. fresh_conn)) { accepted = c + 1 } in
    if b.orphaned then destroy_socket connected c else connected

-- The broker of a server that has just begun to listen.
unfoldable pub start : (ℕ → Text) → Bool → Broker
start uuids has_audit = record {
  peers = [];
  conns = λ c. fresh_conn;
  accepted = 0;
  orphaned = false;
  remote_router = none;
  has_audit = has_audit;
  audit = [];
  uuids = uuids;
  minted = 0;
}
