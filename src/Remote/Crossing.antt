-- ===== src/Remote/Crossing.antt =====
-- An envelope on its way from a peer of one machine to a peer of another.
use un_bien.Prelude.{
  ◌≡◌, refl, sym, ◌∙◌, ap, subst, ℕ, Bool, true, false, Option, some, List, [], ◌∷◌, ◌++◌, Text,
  text_eq, if_elim, option_else, option_elim, ◌==◌, ==_refl, if_taken, if_refused, option_taken,
  codes,
}
use un_bien.Prelude.Dict
use un_bien.Json.{has_type}
use un_bien.Envelope.{Envelope, one, serialize, non_empty}
use un_bien.Envelope.RoundTrip.{IsValid, parse-serialize}
use un_bien.Broker.State.{Broker, AckStatus, Via, relay, PeerConn, forward, write, update_conn}
use un_bien.Broker.Routing.{append_audit}
use un_bien.Broker.Inject.{
  inject_from_remote, inject_parsed, inject_by_recipients, inject_to, is_local_name, InjectStatus,
}
use un_bien.Remote.Prefix.{with_prefix}
use un_bien.Remote.State.{BrokerRemote}
use un_bien.Remote.Outbound.{try_route_outbound}
use un_bien.Remote.Incoming.{handle_incoming, handle_addressed, deliver, is_control_endpoint}
use un_bien.Remote.Errors.{relay_name}
use un_bien.Remote.Handing.{Knows, outgoing, arriving, Takes, try_route_outbound-Takes}
use un_bien.Remote.Arriving.{arriving-IsValid, handle_incoming-arriving}

append_audit-conns :
    (b : Broker) (env : Envelope) (to : List Text) (status : Option AckStatus) (via : Via)
    → (append_audit b env to status via).conns ≡ b.conns
unfolding append_audit
append_audit-conns b env to status via =
    if_elim (λ (b' : Broker). b'.conns ≡ b.conns) b.has_audit (λ _. refl) (λ _. refl)

-- A registered peer whose socket takes what is written gets what is injected for it.
inject-received :
    (b : Broker) (env : Envelope) (to : Text) (c : ℕ)
    → IsValid env
    → env.to ≡ one to
    → is_local_name to ≡ true
    → Dict.get b.peers to ≡ some c
    → (b.conns c).refuses ≡ false
    → ((inject_from_remote b env).0.conns c).sent ≡ (b.conns c).sent ++ (forward env ∷ [])
unfolding inject_from_remote inject_parsed inject_by_recipients inject_to write update_conn
inject-received b env to c valid one_to local here takes =
    subst (λ p. Got (inject_parsed b p)) (sym (parse-serialize env valid))
      (subst (λ t. Got (inject_by_recipients b env t)) (sym one_to)
        (if_taken Got (is_local_name to) _ local (
          option_taken Got (Dict.get b.peers to) _ _ c here (
            option_taken Got (write b c (forward env)) _ _ written
              (if_refused (λ o. o ≡ some written) (b.conns c).refuses _ takes refl)
              (ap (λ conns. (conns c).sent)
                  (append_audit-conns written env (to ∷ []) (some AckStatus.received) relay)
                ∙ if_taken (λ (p : PeerConn). p.sent ≡ (b.conns c).sent ++ (forward env ∷ []))
                    (c == c) _ (==_refl c) refl)))))
  where
    Got : Broker × InjectStatus → Type 0
    Got p = ((p.0.conns c).sent ≡ (b.conns c).sent ++ (forward env ∷ []))

    written : Broker
    written = update_conn b c (λ p. record p { sent = p.sent ++ (forward env ∷ []) })

-- Two peers of which not both are routers: the envelope is for the broker.
handle_addressed-plain :
    (r : BrokerRemote) (key raw peer : Text) (env : Envelope) (is_control : Bool)
    → is_control ≡ false
    → handle_addressed r key raw is_control env (one peer) ≡ deliver r key raw env peer
unfolding handle_addressed
handle_addressed-plain r key raw peer env is_control plain =
    option_elim (λ r'. r' ≡ deliver r key raw env peer) env.body (λ _. refl)
      λ body _. if_refused (λ r'. r' ≡ deliver r key raw env peer) is_control _ plain refl

deliver-conns :
    (r : BrokerRemote) (key raw : Text) (env : Envelope) (target : Text)
    → (deliver r key raw env target).broker.conns ≡ (inject_from_remote r.broker env).0.conns
unfolding deliver
deliver-conns r key raw env target =
    if_elim (λ (r' : BrokerRemote). r'.broker.conns ≡ (inject_from_remote r.broker env).0.conns)
      (option_else env.body false (λ b. has_type b (codes "ack"))) (λ _. refl) (λ _. refl)

-- From peer to peer: two active routers know each other, each by an alias and a key, and agree on the
-- labels that stand on the wire; the relay is up, and gives a spelling of the first one's key that is
-- not its own name. A valid envelope that a peer of the first addresses to `<alias>:<peer>` is then taken by
-- the router; it hands the relay one frame for the other machine; and what the other router makes of that
-- frame is that the registered peer, if its socket takes it, is written the same envelope, sent from
-- `<alias of the first>:<sender>` to itself. The peer's name is
-- neither the broker's nor that for all, and the two peers are not both named as the routers are.
pub crosses :
    (canonical : Text → Option Text) (a b : BrokerRemote) (alias_a alias_b key_a key_b : Text)
    → Knows a b alias_b key_b
    → Knows b a alias_a key_a
    → a.pi.detached ≡ false
    → a.pi.relay_down ≡ false
    → (peer from_pc : Text) (env : Envelope) (c : ℕ) → IsValid env
    → env.to ≡ one (with_prefix alias_b peer)
    → non_empty peer ≡ true
    → is_control_endpoint env.from peer ≡ false
    → is_local_name peer ≡ true
    → canonical from_pc ≡ some key_a
    → text_eq from_pc relay_name ≡ false
    → Dict.get b.broker.peers peer ≡ some c
    → (b.broker.conns c).refuses ≡ false
    → Takes a (outgoing a b key_b peer env) (try_route_outbound a env)
      × (((handle_incoming canonical b
              (serialize (outgoing a b key_b peer env).envelope)
              from_pc).broker.conns
            c).sent
          ≡ (b.broker.conns c).sent ++ (forward (arriving alias_a peer env) ∷ []))
crosses canonical a b alias_a alias_b key_a key_b a_knows b_knows attached up peer from_pc env c
      valid to full plain local keyed other here takes =
    (
      try_route_outbound-Takes a b alias_b key_b a_knows peer env to full attached up,
      ap (λ (r : BrokerRemote). (r.broker.conns c).sent)
            (handle_incoming-arriving canonical a b alias_a key_a b_knows peer key_b from_pc env
              valid full keyed other)
          ∙ ap (λ (r : BrokerRemote). (r.broker.conns c).sent)
              (handle_addressed-plain b key_a _ peer (arriving alias_a peer env) _ plain)
          ∙ ap (λ conns. (conns c).sent) (deliver-conns b key_a _ (arriving alias_a peer env) peer)
          ∙ inject-received b.broker (arriving alias_a peer env) peer c
              (arriving-IsValid alias_a peer env valid full) refl local here takes,
    )
