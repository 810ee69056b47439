-- ===== src/Broker/Takeover.antt =====
-- Ends of connections that come late: the close event of a socket whose address was taken over, and
-- a connection that was there before the broker was orphaned.
use un_bien.Prelude.{
  ◌≡◌, refl, ap, ◌∙◌, ℕ, Bool, true, Option, some, [], Text, arith, if_elim, option_else-some,
}
use un_bien.Prelude.Dict
use un_bien.Json.{Value}
use un_bien.Address.{sanitize_mesh_name}
use un_bien.Broker.State.{Broker, update_conn, peer_joined, register_ack}
use un_bien.Broker.Naming.{
  Identity, identity_for_register, candidate_for, free_identity, takes_over,
}
use un_bien.Broker.Registry.{
  evict, drop_peer_at, enter, admit, name_conn, on_close, orphan, handle_register, register_request,
  close_all, RegisterRequest,
}
use un_bien.Broker.Quiet.{Quiet, Quiet-trans, try_write-Quiet, broadcast_system-Quiet}

-- Announcing a registration changes the registry no more.
admit-Quiet :
    (b : Broker) (c : ℕ) (cwd : Text) (i : Identity) → Quiet (enter b c cwd i) (admit b c cwd i)
unfolding admit
admit-Quiet b c cwd i =
    Quiet-trans (try_write-Quiet (enter b c cwd i) c (register_ack i.address i.name))
      (broadcast_system-Quiet _ (peer_joined i.address) i.address)

-- The evicted connection has no address left.
enter-evicted :
    (b : Broker) (c old : ℕ) (cwd : Text) (i : Identity)
    → i.replaces ≡ true
    → Dict.get b.peers i.address ≡ some old
    → ((enter b c cwd i).conns old).address ≡ []
unfolding enter evict drop_peer_at name_conn update_conn
enter-evicted b c old cwd i r there = ground (arith, r, there)

-- The close event of a socket with no address changes the registry in nothing.
on_close-unaddressed :
    (b : Broker) (c : ℕ) → (b.conns c).address ≡ [] → (on_close b c).peers ≡ b.peers
unfolding on_close
on_close-unaddressed b c h = rw (h) refl

registers :
    (b : Broker) (c : ℕ) (line : Option Value) (req : RegisterRequest) (i : Identity)
    → register_request line ≡ some req
    → identity_for_register b.peers req.cwd req.name req.takeover ≡ some i
    → handle_register b c line ≡ admit b c req.cwd i
unfolding handle_register
registers b c line req i asks named =
    option_else-some (register_request line) _ _ req asks
    ∙ option_else-some (identity_for_register b.peers req.cwd req.name req.takeover) _ _ i named

admit-get :
    (b : Broker) (c : ℕ) (cwd : Text) (i : Identity)
    → Dict.get (admit b c cwd i).peers i.address ≡ some c
unfolding enter
admit-get b c cwd i =
    ap (λ ps. Dict.get ps i.address) (admit-Quiet b c cwd i).peers
    ∙ Dict.get-set_self (evict (name_conn b c cwd i) i).peers i.address c

-- A registration that is granted the address of a registered peer outlives that peer: when the
-- close event of the evicted socket comes after it, the address is the new connection's.
pub takeover_outlives :
    (b : Broker) (c old : ℕ) (line : Option Value) (req : RegisterRequest) (i : Identity)
    → register_request line ≡ some req
    → identity_for_register b.peers req.cwd req.name req.takeover ≡ some i
    → i.replaces ≡ true
    → Dict.get b.peers i.address ≡ some old
    → Dict.get (on_close (handle_register b c line) old).peers i.address ≡ some c
takeover_outlives b c old line req i asks named r there =
    let q = admit-Quiet b c req.cwd i in
    let gone = (q.conns old).address ∙ enter-evicted b c old req.cwd i r there in
    ap (λ (x : Broker). Dict.get (on_close x old).peers i.address)
      (registers b c line req i asks named)
    ∙ ap (λ ps. Dict.get ps i.address) (on_close-unaddressed (admit b c req.cwd i) old gone)
    ∙ admit-get b c req.cwd i

-- In an empty registry whoever asks gets the name that was asked for.
identity_for_register-empty :
    (cwd name : Text) (takeover : Bool) (i : Identity)
    → candidate_for cwd (sanitize_mesh_name name) ≡ some i
    → identity_for_register [] cwd name takeover ≡ some i
unfolding identity_for_register free_identity Dict.get
identity_for_register-empty cwd name takeover i h =
    option_else-some (candidate_for cwd (sanitize_mesh_name name)) _ _ i h
    ∙ if_elim (λ x. x ≡ some i) (takes_over [] cwd takeover i) (λ t. absurd (ground arith))
        (λ _. refl)

-- On an orphaned broker, a connection's register message, with a name and a folder within the
-- limits, still enters the connection into the registry, under the address made of the two.
pub orphan-register :
    (b : Broker) (c : ℕ) (line : Option Value) (req : RegisterRequest) (i : Identity)
    → register_request line ≡ some req
    → candidate_for req.cwd (sanitize_mesh_name req.name) ≡ some i
    → Dict.get (handle_register (orphan b) c line).peers i.address ≡ some c
unfolding orphan close_all
orphan-register b c line req i asks fits =
    ap (λ (x : Broker). Dict.get x.peers i.address)
      (registers (orphan b) c line req i asks
        (identity_for_register-empty req.cwd req.name req.takeover i fits))
    ∙ admit-get (orphan b) c req.cwd i
