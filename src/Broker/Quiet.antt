-- ===== src/Broker/Quiet.antt =====
-- Most of what the broker does is write to sockets: that leaves the registry as it was.
use un_bien.Prelude.{
  ◌≡◌, refl, ◌∙◌, subst, ℕ, ◌+◌, Bool, true, false, Option, none, some, List, [], ◌∷◌, ◌++◌, Text,
  text_eq, codes, arith, if_elim, option_elim,
}
use un_bien.Prelude.Dict
use un_bien.Prelude.Dict.{Dict}
use un_bien.Envelope.{Envelope, ok, err, parse, Result}
use un_bien.Json.{Value, has_type}
use un_bien.Broker.State.{
  AckStatus, SystemBody, Frame, PeerConn, Broker, update_conn, write, try_write, write_system,
  forward, broadcast_to, broadcast_system, received, unknown_peer, ack, broker_pong, Via,
}
use un_bien.Broker.Routing.{
  send_ack_to_sender, Progress, settle, deliver_one, deliver_all, append_audit, route_local,
  resolve_targets, claimed_remotely, handle_broker_message, route, answer_probe, is_to_broker,
  handle_envelope,
}

-- The two are the same connection, but for what was written to it.
pub record SamePeer (p q : PeerConn) : Type 0 where
  pub name : q.name ≡ p.name
  pub cwd : q.cwd ≡ p.cwd
  pub address : q.address ≡ p.address
  pub destroyed : q.destroyed ≡ p.destroyed
  pub refuses : q.refuses ≡ p.refuses

pub record Quiet (b b' : Broker) : Type 0 where
  pub peers : b'.peers ≡ b.peers
  pub accepted : b'.accepted ≡ b.accepted
  pub orphaned : b'.orphaned ≡ b.orphaned
  pub conns : (c : ℕ) → SamePeer (b.conns c) (b'.conns c)

pub SamePeer-refl : (p : PeerConn) → SamePeer p p
SamePeer-refl p = record {
  name = refl;
  cwd = refl;
  address = refl;
  destroyed = refl;
  refuses = refl;
}

pub Quiet-refl : (b : Broker) → Quiet b b
Quiet-refl b = record {
  peers = refl;
  accepted = refl;
  orphaned = refl;
  conns = λ c. SamePeer-refl (b.conns c);
}

mint-Quiet : (b : Broker) → Quiet b (record b { minted = b.minted + 1 })
mint-Quiet b = record {
  peers = refl;
  accepted = refl;
  orphaned = refl;
  conns = λ c. SamePeer-refl (b.conns c);
}

SamePeer-trans : {p q r : PeerConn} → SamePeer p q → SamePeer q r → SamePeer p r
SamePeer-trans h k = record {
  name = k.name ∙ h.name;
  cwd = k.cwd ∙ h.cwd;
  address = k.address ∙ h.address;
  destroyed = k.destroyed ∙ h.destroyed;
  refuses = k.refuses ∙ h.refuses;
}

pub Quiet-trans : {a b c : Broker} → Quiet a b → Quiet b c → Quiet a c
Quiet-trans h k = record {
  peers = k.peers ∙ h.peers;
  accepted = k.accepted ∙ h.accepted;
  orphaned = k.orphaned ∙ h.orphaned;
  conns = λ c. SamePeer-trans (h.conns c) (k.conns c);
}

sent-Quiet :
    (b : Broker) (c : ℕ) (frame : Frame)
    → Quiet b (update_conn b c (λ p. record p { sent = p.sent ++ (frame ∷ []) }))
unfolding update_conn
sent-Quiet b c frame = record {
  peers = refl;
  accepted = refl;
  orphaned = refl;
  conns = λ d. ground arith;
}

pub write-Quiet :
    (b : Broker) (c : ℕ) (frame : Frame) {b' : Broker} → write b c frame ≡ some b' → Quiet b b'
unfolding write
write-Quiet b c frame {b'} h =
    let same : update_conn b c (λ p. record p { sent = p.sent ++ (frame ∷ []) }) ≡ b' =
      ground arith in
    subst (Quiet b) same (sent-Quiet b c frame)

pub try_write-Quiet : (b : Broker) (c : ℕ) (frame : Frame) → Quiet b (try_write b c frame)
unfolding try_write
try_write-Quiet b c frame =
    option_elim (Quiet b) (write b c frame) (λ _. Quiet-refl b) (λ b' e. write-Quiet b c frame e)

pub write_system-Quiet :
    (b : Broker) (c : ℕ) (to : Text) (re : Option Text) (body : SystemBody)
    → Quiet b (write_system b c to re body)
unfolding write_system
write_system-Quiet b c to re body =
    Quiet-trans (mint-Quiet b) (try_write-Quiet (record b { minted = b.minted + 1 }) c _)

broadcast_to-Quiet :
    (ps : Dict ℕ) (b : Broker) (body : SystemBody) (excluded : Text)
    → Quiet b (broadcast_to ps b body excluded)
unfolding broadcast_to
broadcast_to-Quiet [] b body excluded = Quiet-refl b
broadcast_to-Quiet ((address, c) ∷ rest) b body excluded =
    Quiet-trans
      (if_elim (Quiet b) (text_eq address excluded) (λ _. Quiet-refl b)
        (λ _. write_system-Quiet b c address none body))
      (broadcast_to-Quiet rest _ body excluded)

pub broadcast_system-Quiet :
    (b : Broker) (body : SystemBody) (excluded : Text) → Quiet b (broadcast_system b body excluded)
unfolding broadcast_system
broadcast_system-Quiet b body excluded = broadcast_to-Quiet b.peers b body excluded

send_ack-Quiet :
    (b : Broker) (env : Envelope) (status : AckStatus) (target : Text)
    → Quiet b (send_ack_to_sender b env status target)
unfolding send_ack_to_sender
send_ack-Quiet b env status target =
    option_elim (Quiet b) (Dict.get b.peers env.from) (λ _. Quiet-refl b)
      (λ c _. write_system-Quiet b c env.from (some env.id) (ack status target))

settle-Quiet :
    (u : Bool) (p : Progress) (env : Envelope) (status : AckStatus) (target : Text)
    → Quiet p.broker (settle u p env status target).broker
unfolding settle
settle-Quiet true p env status target = send_ack-Quiet p.broker env status target
settle-Quiet false p env status target = Quiet-refl p.broker

deliver_one-Quiet :
    (u : Bool) (env : Envelope) (target : Text) (p : Progress)
    → Quiet p.broker (deliver_one u env target p).broker
unfolding deliver_one
deliver_one-Quiet u env target p =
    option_elim (λ (x : Progress). Quiet p.broker x.broker) (Dict.get p.broker.peers target)
      (λ _. settle-Quiet u p env unknown_peer target)
      λ c _.
        option_elim (λ (x : Progress). Quiet p.broker x.broker) (write p.broker c (forward env))
          (λ _. Quiet-refl p.broker)
          λ b w.
            Quiet-trans (write-Quiet p.broker c (forward env) w)
              (settle-Quiet u _ env received target)

deliver_all-Quiet :
    (u : Bool) (env : Envelope) (targets : List Text) (p : Progress)
    → Quiet p.broker (deliver_all u env targets p).broker
unfolding deliver_all
deliver_all-Quiet u env [] p = Quiet-refl p.broker
deliver_all-Quiet u env (target ∷ rest) p =
    Quiet-trans (deliver_one-Quiet u env target p)
      (deliver_all-Quiet u env rest (deliver_one u env target p))

pub audit-Quiet :
    (b : Broker) (env : Envelope) (delivered : List Text) (status : Option AckStatus) (via : Via)
    → Quiet b (append_audit b env delivered status via)
unfolding append_audit
audit-Quiet b env delivered status via =
    if_elim (Quiet b) b.has_audit
      (λ _. record {
        peers = refl;
        accepted = refl;
        orphaned = refl;
        conns = λ c. SamePeer-refl (b.conns c);
      })
      (λ _. Quiet-refl b)

route_local-Quiet : (b : Broker) (env : Envelope) → Quiet b (route_local b env)
unfolding route_local
route_local-Quiet b env =
    Quiet-trans (deliver_all-Quiet _ env (resolve_targets b env) _) (audit-Quiet _ env _ _ _)

message-Quiet : (b : Broker) (env : Envelope) → Quiet b (handle_broker_message b env)
unfolding handle_broker_message
message-Quiet b env =
    option_elim (Quiet b) env.body (λ _. Quiet-refl b)
      λ body _.
        if_elim (Quiet b) (has_type body (codes "list_peers"))
          (λ _.
            option_elim (Quiet b) (Dict.get b.peers env.from) (λ _. mint-Quiet b)
              (λ c _. write_system-Quiet b c env.from (some env.id) _))
          (λ _. Quiet-refl b)

-- Routing registers nobody and drops nobody.
pub route-Quiet : (b : Broker) (env : Envelope) → Quiet b (route b env)
unfolding route
route-Quiet b env =
    if_elim (Quiet b) (is_to_broker env.to) (λ _. message-Quiet b env)
      λ _.
        if_elim (Quiet b) (claimed_remotely b env) (λ _. Quiet-refl b)
          (λ _. route_local-Quiet b env)

pub handle_envelope-Quiet :
    (b : Broker) (c : ℕ) (line : Option Value) → Quiet b (handle_envelope b c line)
unfolding handle_envelope
handle_envelope-Quiet b c line = go (parse line)
  where
    go :
        (r : Result Envelope)
        → Quiet b
            (elim r [ err e ↦ b | ok env ↦ route b (record env { from = (b.conns c).address }) ])
    go (err e) = Quiet-refl b
    go (ok env) = route-Quiet b (record env { from = (b.conns c).address })

abbrev pub Answers : Broker → Option Broker → Type 0
Answers b none = Unit
Answers b (some b') = Quiet b b'

-- Nor does answering a probe.
pub answer_probe-Answers :
    (b : Broker) (c : ℕ) (line : Option Value) → Answers b (answer_probe b c line)
unfolding answer_probe
answer_probe-Answers b c none = tt
answer_probe-Answers b c (some v) =
    if_elim (Answers b) (has_type v (codes "broker_ping"))
      (λ _. write_system-Quiet b c (codes "observer") none broker_pong)
      λ _.
        if_elim (Answers b) (has_type v (codes "list_peers"))
          (λ _. write_system-Quiet b c (codes "observer") none _) (λ _. tt)
