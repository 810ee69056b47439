-- ===== src/Remote/Announcing.antt =====
-- The roster that a machine gives of itself, and what the others make of it.
use un_bien.Prelude.{
  ◌≡◌, refl, sym, ◌∙◌, ap, subst, Bool, true, false, Option, none, some, List, Text, text_eq, map,
  if_taken, option_else, option_taken, option_elim, codes,
}
use un_bien.Prelude.Dict
use un_bien.Json.{Value, member, get_field, as_text, has_type}
use un_bien.Address.{PeerInfo, is_bounded_peer_roster}
use un_bien.Broker.State.{local_peer_infos}
use un_bien.Broker.Invariant.{WellFormed}
use un_bien.Broker.Steps.{set_remote_router-WellFormed}
use un_bien.Broker.Roster.{is_bounded_peer_roster-local_peer_infos}
use un_bien.Remote.Roster.{
  WirePeerInfo, wire_info, peers_update_body, local_peers_body, parse_peers_update,
}
use un_bien.Remote.State.{
  BrokerRemote, RemotePeerEntry, active, dormant, control_envelope, next_id, broker_remote_name,
}
use un_bien.Remote.Lifecycle.{
  activate, activate_in, bootstrap_with_siblings, attach, announce_to, router_of,
}
use un_bien.Envelope.{Envelope, one, serialize, is_uuid}
use un_bien.Envelope.RoundTrip.{IsValid}
use un_bien.Remote.Outbound.{rewritten}
use un_bien.Remote.Prefix.{with_prefix}
use un_bien.Remote.Cache.{set_remote_cache, clear_pending_fills}
use un_bien.Remote.Incoming.{
  handle_incoming, handle_addressed, handle_control, take_peers_update, is_control_endpoint,
}
use un_bien.Remote.Errors.{relay_name}
use un_bien.Remote.Handing.{Knows, outgoing, arriving}
use un_bien.Remote.Arriving.{handle_incoming-arriving}
use un_bien.Remote.Reading.{own_infos, parse_peers_update-body, local_peers_body-some}

-- The control envelope, with the names that the two routers go by.
abbrev control_of : BrokerRemote → Value → Envelope
control_of a body = record {
  from = broker_remote_name;
  to = one broker_remote_name;
  id = next_id a;
  re = none;
  body = some body;
}

control_envelope-outgoing :
    (a b : BrokerRemote) (alias key : Text) (body : Value)
    → Knows a b alias key
    → control_envelope a key body
      ≡ (outgoing a b key broker_remote_name (control_of a body)).envelope
unfolding control_envelope rewritten
control_envelope-outgoing a b alias key body knows =
    ap
      (λ (o : Option Text).
        record (outgoing a b key broker_remote_name (control_of a body)).envelope {
          to = one (with_prefix (option_else o (codes "?") (λ t. t)) broker_remote_name);
        })
      knows.label

set_remote_cache-peers :
    (r : BrokerRemote) (key : Text) (infos : List WirePeerInfo)
    → (set_remote_cache r key infos).remote_peers
      ≡ Dict.set r.remote_peers key (record { infos = infos; pc_pubkey = key; ts = r.now })
unfolding set_remote_cache clear_pending_fills
set_remote_cache-peers r key infos =
    option_elim
      (λ (r' : BrokerRemote).
        r'.remote_peers
        ≡ Dict.set r.remote_peers key (record { infos = infos; pc_pubkey = key; ts = r.now }))
      (Dict.get r.pending_fills key) (λ _. refl) (λ _ _. refl)

-- A roster that comes from the other router is cached as it was sent.
handle_addressed-roster :
    (r : BrokerRemote) (key raw target : Text) (is_control : Bool) (env : Envelope)
    (infos : List PeerInfo)
    → is_control ≡ true
    → is_bounded_peer_roster infos ≡ true
    → env.body ≡ some (peers_update_body (map wire_info infos))
    → handle_addressed r key raw is_control env (one target)
      ≡ set_remote_cache r key (map wire_info infos)
unfolding handle_addressed handle_control take_peers_update
handle_addressed-roster r key raw target is_control env infos control fits body =
    option_taken Is env.body _ _ (peers_update_body (map wire_info infos)) body (
      if_taken Is is_control _ control (
        if_taken Is (has_type (peers_update_body (map wire_info infos)) (codes "peers_update")) _
          is_roster
          (option_taken Is (parse_peers_update (peers_update_body (map wire_info infos))) _ _
            (map wire_info infos) (parse_peers_update-body infos fits) refl)))
  where
    Is : BrokerRemote → Type 0
    Is r' = r' ≡ set_remote_cache r key (map wire_info infos)

    is_roster : has_type (peers_update_body (map wire_info infos)) (codes "peers_update") ≡ true
    is_roster = unfold has_type peers_update_body member get_field text_eq as_text in refl

-- What a router tells of its peers, the other caches: two active routers know each other and agree on the
-- labels on the wire, the ids are UUIDs, and the relay gives a spelling of the first one's key. If the broker
-- of the first is well-formed, its roster can be sent, and the other router, given the control envelope with
-- it, holds the first one's peers under its key, as they are registered, from now on.
pub announced :
    (canonical : Text → Option Text) (a b : BrokerRemote)
    (alias_a alias_b key_a key_b from_pc : Text)
    → Knows a b alias_b key_b
    → Knows b a alias_a key_a
    → WellFormed a.broker
    → is_uuid (next_id a) ≡ true
    → canonical from_pc ≡ some key_a
    → text_eq from_pc relay_name ≡ false
    → (body : Value) × ((local_peers_body a.broker ≡ some body)
        × (Dict.get
              (handle_incoming canonical b
                (serialize (control_envelope a key_b body))
                from_pc).remote_peers
              key_a
            ≡ some (record { infos = own_infos a.broker; pc_pubkey = key_a; ts = b.now })))
announced canonical a b alias_a alias_b key_a key_b from_pc a_knows b_knows w minted keyed other = (
  peers_update_body (own_infos a.broker),
  (
    local_peers_body-some a.broker w,
    ap (λ (e : Envelope). entry_after (handle_incoming canonical b (serialize e) from_pc))
          (control_envelope-outgoing a b alias_b key_b (peers_update_body (own_infos a.broker))
            a_knows)
        ∙ ap entry_after (
            handle_incoming-arriving canonical a b alias_a key_a b_knows broker_remote_name key_b
              from_pc told valid refl keyed other)
        ∙ ap entry_after (
            handle_addressed-roster b key_a _ broker_remote_name
              (is_control_endpoint broker_remote_name broker_remote_name)
              (arriving alias_a broker_remote_name told) (local_peer_infos a.broker)
              (unfold text_eq in refl) (is_bounded_peer_roster-local_peer_infos a.broker w) refl)
        ∙ ap (λ m. Dict.get m key_a) (set_remote_cache-peers b key_a (own_infos a.broker))
        ∙ Dict.get-set_self b.remote_peers key_a _,
  ),
)
  where
    entry_after : BrokerRemote → Option RemotePeerEntry
    entry_after r = Dict.get r.remote_peers key_a

    told : Envelope
    told = control_of a (peers_update_body (own_infos a.broker))

    valid : IsValid told
    valid = record {
      from = refl;
      to = refl;
      id = minted;
      re = tt;
      body = (peers_update_body (own_infos a.broker), refl);
    }

-- A router that is dormant, with a well-formed broker, becomes active when it is activated, and the call
-- returns.
pub activate-active :
    (r : BrokerRemote)
    → r.lifecycle ≡ dormant
    → WellFormed r.broker
    → ((activate r).0.lifecycle ≡ active) × ((activate r).1 ≡ true)
unfolding activate
activate-active r rests w =
    subst (λ s. Started (activate_in s r)) (sym rests)
      (unfold activate_in bootstrap_with_siblings in
        option_taken Started (bootstrap_with_siblings (attach r)) _ _ _
          (option_taken
            (λ o.
              o
              ≡ some (
                  announce_to (attach r) (Dict.keys r.routing.sibling_by_pubkey)
                    (peers_update_body (own_infos (attach r).broker))))
            (local_peers_body (attach r).broker) _ _
            (peers_update_body (own_infos (attach r).broker))
            (local_peers_body-some (attach r).broker
              (set_remote_router-WellFormed r.broker (some (router_of r)) w))
            refl)
          (refl, refl))
  where
    Started : BrokerRemote × Bool → Type 0
    Started p = (p.0.lifecycle ≡ active) × (p.1 ≡ true)
