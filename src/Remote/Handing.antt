-- ===== src/Remote/Handing.antt =====
-- What the relay is handed for a peer of another machine.
use un_bien.Prelude.{
  ◌≡◌, refl, sym, ◌∙◌, ap, subst, Bool, true, false, ◌||◌, some, List, [], ◌∷◌, ◌++◌, Text, arith,
  if_elim, append_assoc, if_taken, if_refused, option_taken,
}
use un_bien.Prelude.Dict
use un_bien.Json.{Value}
use un_bien.Envelope.{Envelope, one, non_empty}
use un_bien.Remote.Prefix.{with_prefix, parse_address}
use un_bien.Remote.Roster.{peers_request_body}
use un_bien.Remote.Tables.{IsRouting}
use un_bien.Remote.State.{
  BrokerRemote, PiEnvelopeFrame, PiForwardClient, control_envelope, active, is_active, send,
  send_envelope_to_pi, send_control_envelope, legacy_label_for_pubkey,
}
use un_bien.Remote.Cache.{await_peers_fill}
use un_bien.Remote.Outbound.{
  try_route_outbound, try_route_to, route_to_address, route_to_canonical_sibling, ask_for_peers,
  rewritten,
}
use un_bien.Remote.Addresses.{parse_address-with_prefix}

-- `a` is active and has `b` for a sibling, under this alias and key, with the label that `b` goes by
-- on the wire.
pub record Knows (a b : BrokerRemote) (alias key : Text) : Type 0 where
  pub awake : a.lifecycle ≡ active
  pub tables : IsRouting a.routing
  pub named : Dict.get a.routing.sibling_by_pubkey key ≡ some alias
  pub label : legacy_label_for_pubkey a key ≡ some b.routing.self.legacy_pc_label

-- What the client of `a` hands to the relay for a peer of `b`.
abbrev pub outgoing : BrokerRemote → BrokerRemote → Text → Text → Envelope → PiEnvelopeFrame
outgoing a b key peer env = record {
  to_pc = key;
  envelope = rewritten a b.routing.self.legacy_pc_label peer env;
}

-- The envelope as the peer of `b` sees it.
abbrev pub arriving : Text → Text → Envelope → Envelope
arriving alias peer env = record env { from = with_prefix alias env.from; to = one peer }

-- The client of `a` was given the frame first of all that it was given.
abbrev pub Hands : BrokerRemote → PiEnvelopeFrame → BrokerRemote → Type 0
Hands a frame a' = (rest : List PiEnvelopeFrame) × (a'.pi.sent ≡ a.pi.sent ++ (frame ∷ rest))

abbrev pub Takes : BrokerRemote → PiEnvelopeFrame → BrokerRemote × Bool → Type 0
Takes a frame p = (p.1 ≡ true) × Hands a frame p.0

send_control-Hands :
    (a r : BrokerRemote) (frame : PiEnvelopeFrame) (key : Text) (body : Value)
    → Hands a frame r
    → Hands a frame (send_control_envelope r key body)
unfolding send_control_envelope send_envelope_to_pi
send_control-Hands a r frame key body (rest, e) =
    if_elim
      (λ (pi : PiForwardClient).
        (more : List PiEnvelopeFrame) × (pi.sent ≡ a.pi.sent ++ (frame ∷ more)))
      (r.pi.detached || r.pi.relay_down) (λ _. (rest, e))
      (λ _. (
        rest ++ (last ∷ []),
        ap (λ s. s ++ (last ∷ [])) e ∙ append_assoc a.pi.sent (frame ∷ rest) (last ∷ []),
      ))
  where
    last : PiEnvelopeFrame
    last = record { to_pc = key; envelope = control_envelope r key body }

ask_for_peers-Hands :
    (a r : BrokerRemote) (frame : PiEnvelopeFrame) (key : Text)
    → Hands a frame r
    → Hands a frame (ask_for_peers r key)
unfolding ask_for_peers await_peers_fill
ask_for_peers-Hands a r frame key h =
    if_elim (Hands a frame) (Dict.has r.remote_peers key) (λ _. h)
      (λ _. send_control-Hands a r frame key peers_request_body h)

send-Hands :
    (a : BrokerRemote) (key : Text) (env : Envelope)
    → a.pi.detached ≡ false
    → a.pi.relay_down ≡ false
    → Hands a (record { to_pc = key; envelope = env }) (send a key env)
unfolding send_envelope_to_pi
send-Hands a key env attached up =
    if_refused
      (λ (pi : PiForwardClient).
        (rest : List PiEnvelopeFrame) × (pi.sent
          ≡ a.pi.sent ++ (record { to_pc = key; envelope = env } ∷ rest)))
      (a.pi.detached || a.pi.relay_down) _ (ground arith) ([], refl)

-- An envelope that is addressed behind the alias of a sibling is taken, and the frame handed over.
pub try_route_outbound-Takes :
    (a b : BrokerRemote) (alias key : Text)
    → Knows a b alias key
    → (peer : Text) (env : Envelope) → env.to ≡ one (with_prefix alias peer)
    → non_empty peer ≡ true
    → a.pi.detached ≡ false
    → a.pi.relay_down ≡ false
    → Takes a (outgoing a b key peer env) (try_route_outbound a env)
unfolding try_route_outbound try_route_to route_to_address route_to_canonical_sibling
try_route_outbound-Takes a b alias key knows peer env to full attached up =
    subst (λ t. Taken (try_route_to a t env)) (sym to)
      (if_taken Taken (is_active a.lifecycle) _ (ap is_active knows.awake) (
        option_taken Taken (parse_address (with_prefix alias peer)) _ _ (alias, peer)
          (parse_address-with_prefix alias peer (knows.tables.other key alias knows.named).0 full)
          (option_taken Taken (Dict.get a.routing.sibling_by_label alias) _ _ key
            (knows.tables.back key alias knows.named)
            (option_taken Taken (legacy_label_for_pubkey a key) _ _ b.routing.self.legacy_pc_label
              knows.label
              (
                refl,
                ask_for_peers-Hands a (send a key (outgoing a b key peer env).envelope)
                    (outgoing a b key peer env) key
                    (send-Hands a key (outgoing a b key peer env).envelope attached up),
              )))))
  where
    Taken : BrokerRemote × Bool → Type 0
    Taken = Takes a (outgoing a b key peer env)
