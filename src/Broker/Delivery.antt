-- ===== src/Broker/Delivery.antt =====
-- What becomes of an envelope: to one peer, to nobody, to the folder.
use un_bien.Prelude.{
  ◌≡◌, refl, sym, ap, ◌∙◌, ℕ, ◌+◌, ◌≢◌, Bool, true, false, not, Option, none, some, List, [], ◌∷◌,
  ◌++◌, Text, text_eq-false, arith, if_elim, option_else-some,
}
use un_bien.Prelude.Dict
use un_bien.Prelude.Dict.{Dict}
use un_bien.Envelope.{Envelope, one}
use un_bien.Address.{broadcast_name}
use un_bien.Broker.State.{
  AckStatus, received, unknown_peer, ack, Frame, system, forward, Via, uds, Broker, update_conn,
  write, try_write, write_system,
}
use un_bien.Broker.Routing.{
  send_ack_to_sender, Progress, settle, deliver_one, deliver_all, append_audit, route_local,
  resolve_targets, is_unicast,
}

-- What the broker sent on connection `d` between the two states.
abbrev pub Sent : Broker → Broker → ℕ → List Frame → Type 0
Sent b b' d frames = (b'.conns d).sent ≡ (b.conns d).sent ++ frames

abbrev sending : Broker → ℕ → Frame → Broker
sending b c f = update_conn b c (λ p. record p { sent = p.sent ++ (f ∷ []) })

write-sending :
    (b : Broker) (c : ℕ) (f : Frame)
    → (b.conns c).refuses ≡ false
    → write b c f ≡ some (sending b c f)
unfolding write
write-sending b c f h = rw (h) refl

sending-open :
    (b : Broker) (c d : ℕ) (f : Frame)
    → (b.conns d).refuses ≡ false
    → ((sending b c f).conns d).refuses ≡ false
unfolding update_conn
sending-open b c d f h = ground arith

sending-Sent : (b : Broker) (c : ℕ) (f : Frame) → Sent b (sending b c f) c (f ∷ [])
unfolding update_conn
sending-Sent b c f = ground arith

sending-other :
    (b : Broker) (c d : ℕ) (f : Frame) → c ≢ d → ((sending b c f).conns d).sent ≡ (b.conns d).sent
unfolding update_conn
sending-other b c d f h = ground arith

audit-conns :
    (b : Broker) (env : Envelope) (l : List Text) (s : Option AckStatus) (v : Via)
    → (append_audit b env l s v).conns ≡ b.conns
unfolding append_audit
audit-conns b env l s v =
    if_elim (λ (x : Broker). x.conns ≡ b.conns) b.has_audit (λ _. refl) (λ _. refl)

resolve-one :
    (b : Broker) (env : Envelope) (to : Text)
    → env.to ≡ one to
    → to ≢ broadcast_name
    → to ≢ env.from
    → resolve_targets b env ≡ to ∷ []
unfolding resolve_targets
resolve-one b env to is_one not_all not_self =
    rw (is_one, text_eq-false to broadcast_name not_all, text_eq-false to env.from not_self) refl

ack-open :
    (b : Broker) (env : Envelope) (s : AckStatus) (to : Text) (sender : ℕ)
    → Dict.get b.peers env.from ≡ some sender
    → (b.conns sender).refuses ≡ false
    → send_ack_to_sender b env s to
      ≡ sending
          (record b { minted = b.minted + 1 })
          sender
          (system env.from (b.uuids b.minted) (some env.id) (ack s to))
unfolding send_ack_to_sender write_system try_write
ack-open b env s to sender asks open_s =
    rw
      (
        asks,
        write-sending (record b { minted = b.minted + 1 }) sender
            (system env.from (b.uuids b.minted) (some env.id) (ack s to)) open_s,
      )
      refl

ack-after :
    (b : Broker) (c : ℕ) (f : Frame) (env : Envelope) (s : AckStatus) (to : Text) (sender : ℕ)
    → Dict.get b.peers env.from ≡ some sender
    → (b.conns sender).refuses ≡ false
    → send_ack_to_sender (sending b c f) env s to
      ≡ sending
          (record (sending b c f) { minted = b.minted + 1 })
          sender
          (system env.from (b.uuids b.minted) (some env.id) (ack s to))
unfolding update_conn
ack-after b c f env s to sender asks open_s =
    ack-open (sending b c f) env s to sender asks (sending-open b c sender f open_s)

-- Routed on this machine, an envelope to one name, neither that of the broadcast nor the sender's
-- own, that nobody holds: its registered sender, whose socket takes writes, is sent the
-- acknowledgement `unknown_peer` and nothing else, and any other socket nothing.
pub unicast_unknown :
    (b : Broker) (env : Envelope) (to : Text) (sender d : ℕ)
    → env.to ≡ one to
    → to ≢ broadcast_name
    → to ≢ env.from
    → Dict.get b.peers to ≡ none
    → Dict.get b.peers env.from ≡ some sender
    → (b.conns sender).refuses ≡ false
    → d ≢ sender
    → Sent b
        (route_local b env)
        sender
        (system env.from (b.uuids b.minted) (some env.id) (ack unknown_peer to) ∷ [])
      × (((route_local b env).conns d).sent ≡ (b.conns d).sent)
unfolding route_local deliver_all deliver_one settle
unicast_unknown b env to sender d is_one not_all not_self gone asks open_s other =
    rw
      (
        resolve-one b env to is_one not_all not_self,
        is_one,
        text_eq-false to broadcast_name not_all,
        gone,
        audit-conns,
        ack-open b env unknown_peer to sender asks open_s,
      )
      (
        sending-Sent (record b { minted = b.minted + 1 }) sender _,
        sending-other (record b { minted = b.minted + 1 }) sender d _ (λ e. other (sym e)),
      )

deliver_one-there :
    (u : Bool) (env : Envelope) (to : Text) (p : Progress) (c : ℕ)
    → Dict.get p.broker.peers to ≡ some c
    → (p.broker.conns c).refuses ≡ false
    → deliver_one u env to p
      ≡ settle u
          (record p {
            broker = sending p.broker c (forward env);
            delivered = p.delivered ++ (to ∷ []);
          })
          env
          received
          to
unfolding deliver_one
deliver_one-there u env to p c there h =
    option_else-some (Dict.get p.broker.peers to) _ _ c there
    ∙ option_else-some (write p.broker c (forward env)) _ _ (sending p.broker c (forward env))
        (write-sending p.broker c (forward env) h)

abbrev beginning : Broker → Progress
beginning b = record { broker = b; delivered = []; ack_status = none }

route_local-one :
    (b : Broker) (env : Envelope) (to : Text)
    → env.to ≡ one to
    → to ≢ broadcast_name
    → to ≢ env.from
    → (route_local b env).conns ≡ (deliver_one true env to (beginning b)).broker.conns
unfolding route_local deliver_all
route_local-one b env to is_one not_all not_self =
    audit-conns _ env _ _ uds
    ∙ ap (λ ts. (deliver_all (is_unicast env.to) env ts (beginning b)).broker.conns)
        (resolve-one b env to is_one not_all not_self)
    ∙ ap (λ u. (deliver_one u env to (beginning b)).broker.conns)
        (ap is_unicast is_one ∙ ap not (text_eq-false to broadcast_name not_all))

received_conns :
    (b : Broker) (env : Envelope) (to : Text) (c sender : ℕ)
    → Dict.get b.peers to ≡ some c
    → Dict.get b.peers env.from ≡ some sender
    → (b.conns c).refuses ≡ false
    → (b.conns sender).refuses ≡ false
    → (deliver_one true env to (beginning b)).broker.conns
      ≡ (sending
          (record (sending b c (forward env)) { minted = b.minted + 1 })
          sender
          (system env.from (b.uuids b.minted) (some env.id) (ack received to))).conns
unfolding settle
received_conns b env to c sender there asks open_c open_s =
    ap (λ (p : Progress). p.broker.conns)
      (deliver_one-there true env to (beginning b) c there open_c)
    ∙ ap (λ (x : Broker). x.conns) (ack-after b c (forward env) env received to sender asks open_s)

-- Routed on this machine, an envelope to one name, neither that of the broadcast nor the sender's
-- own, that a connection other than the sender's holds is written to that connection as it is, and
-- the sender is sent the acknowledgement `received`; neither is sent anything else. Both sockets
-- take writes.
pub unicast_received :
    (b : Broker) (env : Envelope) (to : Text) (c sender : ℕ)
    → env.to ≡ one to
    → to ≢ broadcast_name
    → to ≢ env.from
    → Dict.get b.peers to ≡ some c
    → Dict.get b.peers env.from ≡ some sender
    → c ≢ sender
    → (b.conns c).refuses ≡ false
    → (b.conns sender).refuses ≡ false
    → Sent b (route_local b env) c (forward env ∷ [])
      × Sent b
          (route_local b env)
          sender
          (system env.from (b.uuids b.minted) (some env.id) (ack received to) ∷ [])
unicast_received b env to c sender is_one not_all not_self there asks apart open_c open_s =
    let b1 = sending b c (forward env) in
    let f = system env.from (b.uuids b.minted) (some env.id) (ack received to) in
    let b2 = record b1 { minted = b.minted + 1 } in
    let e : (route_local b env).conns ≡ (sending b2 sender f).conns =
      route_local-one b env to is_one not_all not_self
      ∙ received_conns b env to c sender there asks open_c open_s in
    (
      ap (λ conns. (conns c).sent) e
          ∙ (sending-other b2 sender c f (λ e. apart (sym e)) ∙ sending-Sent b c (forward env)),
      ap (λ conns. (conns sender).sent) e
          ∙ (sending-Sent b2 sender f
              ∙ ap (λ s. s ++ (f ∷ [])) (sending-other b c sender (forward env) apart)),
    )
