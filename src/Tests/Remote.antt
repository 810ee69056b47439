-- ===== src/Tests/Remote.antt =====
-- Two machines that know each other, and the theorems about the router applied to them.
use un_bien.Prelude.{
  ◌≡◌, refl, codes, some, none, text_eq, [], ◌∷◌, ◌++◌, Text, true, false, Option,
}
use un_bien.Prelude.Dict
use un_bien.Json.{Value, str}
use un_bien.Envelope.{Envelope, one, serialize, is_uuid}
use un_bien.Envelope.RoundTrip.{IsValid}
use un_bien.Broker.State.{Broker, forward}
use un_bien.Broker.Invariant.{WellFormed}
use un_bien.Broker.Steps
use un_bien.Remote.Prefix.{if_some_text}
use un_bien.Remote.Topology.{
  PiRoutingIdentity, MeshTopologySnapshot, RoutingState, build_routing_state, ok,
}
use un_bien.Remote.Roster.{local_peers_body}
use un_bien.Remote.State.{
  BrokerRemote, PiForwardClient, LifecycleState, dormant, active, legacy_label_for_pubkey,
  control_envelope, RemotePeerEntry,
}
use un_bien.Remote.Lifecycle.{activate, construct}
use un_bien.Remote.Outbound.{try_route_outbound}
use un_bien.Remote.Incoming.{handle_incoming}
use un_bien.Remote.Errors.{normalized_relay_id}
use un_bien.Remote.Tables.{IsRouting, build_routing_state-IsRouting}
use un_bien.Remote.Keyed.{Sound}
use un_bien.Remote.Steps.{here, next, activates, hears, renewed, Reach-Sound}
use un_bien.Remote.Provenance.{Injects, handle_incoming-Injects}
use un_bien.Remote.Handing.{Knows, outgoing, arriving, Takes}
use un_bien.Remote.Crossing.{crosses}
use un_bien.Remote.Reading.{own_infos}
use un_bien.Remote.Announcing.{announced, activate-active}
use un_bien.Tests.Registry.{pair, pair_reached, pair_mints, uuids}
use un_bien.Tests.Messages.{two, has_second}

-- Any text that is not empty is taken for a key in its only spelling.
abbrev canonical : Text → Option Text
canonical = if_some_text

abbrev desk : PiRoutingIdentity
desk = record {
  pc_label = codes "desk";
  pc_pubkey = codes "AAA=";
  legacy_pc_label = codes "Desk:1";
}

abbrev lap : PiRoutingIdentity
lap = record { pc_label = codes "lap"; pc_pubkey = codes "BBB="; legacy_pc_label = codes "Lap" }

abbrev of_desk : MeshTopologySnapshot
of_desk = record { self = desk; siblings = lap ∷ desk ∷ [] }

abbrev of_lap : MeshTopologySnapshot
of_lap = record { self = lap; siblings = desk ∷ [] }

abbrev desk_tables : RoutingState
desk_tables = record {
  self = desk;
  sibling_by_label = (codes "lap", codes "BBB=") ∷ [];
  sibling_by_pubkey = (codes "BBB=", codes "lap") ∷ [];
  sibling_legacy_label_by_pubkey = (codes "BBB=", codes "Lap") ∷ [];
}

abbrev lap_tables : RoutingState
lap_tables = record {
  self = lap;
  sibling_by_label = (codes "desk", codes "AAA=") ∷ [];
  sibling_by_pubkey = (codes "AAA=", codes "desk") ∷ [];
  sibling_legacy_label_by_pubkey = (codes "AAA=", codes "Desk:1") ∷ [];
}

desk_built : build_routing_state canonical of_desk none ≡ ok desk_tables
unfolding build_routing_state text_eq Dict.get Dict.set
desk_built = refl

lap_built : build_routing_state canonical of_lap none ≡ ok lap_tables
unfolding build_routing_state text_eq Dict.get Dict.set
lap_built = refl

build_routing_state-IsRouting_example : IsRouting desk_tables
build_routing_state-IsRouting_example =
    build_routing_state-IsRouting canonical of_desk none desk_tables desk_built

abbrev online : PiForwardClient
online = record { detached = false; relay_down = false; sent = [] }

abbrev router : LifecycleState → Broker → RoutingState → BrokerRemote
router state broker tables = record {
  key = 0;
  broker = broker;
  pi = online;
  now = 0;
  technical_self_pubkey = tables.self.pc_pubkey;
  cache_ttl_ms = 300000;
  reannounce_interval_ms = 120000;
  routing = tables;
  remote_peers = [];
  topology_refresh_needed = [];
  pending_fills = [];
  fills = 0;
  filled = [];
  listens = false;
  reannounces = false;
  lifecycle = state;
  logged = [];
}

abbrev on_desk : BrokerRemote
on_desk = router active pair desk_tables

abbrev on_lap : BrokerRemote
on_lap = router active two lap_tables

desk-Knows : Knows on_desk on_lap (codes "lap") (codes "BBB=")
unfolding Dict.get text_eq legacy_label_for_pubkey
desk-Knows = record {
  awake = refl;
  tables = build_routing_state-IsRouting canonical of_desk none desk_tables desk_built;
  named = refl;
  label = refl;
}

lap-Knows : Knows on_lap on_desk (codes "desk") (codes "AAA=")
unfolding Dict.get text_eq legacy_label_for_pubkey
lap-Knows = record {
  awake = refl;
  tables = build_routing_state-IsRouting canonical of_lap none lap_tables lap_built;
  named = refl;
  label = refl;
}

abbrev greeting : Envelope
greeting = record {
  from = codes "/w@a";
  to = one (codes "lap:/w@b");
  id = codes "0190a0b0-0000-7000-8000-000000000001";
  re = none;
  body = some (str (codes "hello"));
}

greeting-IsValid : IsValid greeting
unfolding is_uuid
greeting-IsValid = record {
  from = refl;
  to = refl;
  id = refl;
  re = tt;
  body = (str (codes "hello"), refl);
}

crosses_example :
    Takes on_desk
      (outgoing on_desk on_lap (codes "BBB=") (codes "/w@b") greeting)
      (try_route_outbound on_desk greeting)
    × (((handle_incoming canonical on_lap
            (serialize (outgoing on_desk on_lap (codes "BBB=") (codes "/w@b") greeting).envelope)
            (codes "AAA=")).broker.conns
          1).sent
        ≡ (on_lap.broker.conns 1).sent
          ++ (forward (arriving (codes "desk") (codes "/w@b") greeting) ∷ []))
unfolding text_eq
crosses_example =
    crosses canonical on_desk on_lap (codes "desk") (codes "lap") (codes "AAA=") (codes "BBB=")
      desk-Knows lap-Knows refl refl (codes "/w@b") (codes "AAA=") greeting 1 greeting-IsValid refl
      refl refl refl refl refl has_second refl

pair_sound : WellFormed pair
pair_sound = Steps.Reach-WellFormed uuids true pair_reached

abbrev dormant_desk : BrokerRemote
dormant_desk = router dormant pair desk_tables

activate-active_example :
    ((activate dormant_desk).0.lifecycle ≡ active) × ((activate dormant_desk).1 ≡ true)
activate-active_example = activate-active dormant_desk refl pair_sound

desk_constructed : construct canonical 0 pair online 300000 120000 of_desk ≡ ok dormant_desk
unfolding construct build_routing_state text_eq Dict.get Dict.set
desk_constructed = refl

abbrev woken : BrokerRemote
woken = renewed (activate dormant_desk).0

abbrev after_greeting : BrokerRemote
after_greeting = renewed (handle_incoming canonical woken (serialize greeting) (codes "BBB="))

Reach-Sound_example : Sound after_greeting
Reach-Sound_example =
    Reach-Sound canonical 0 pair online 300000 120000 of_desk dormant_desk after_greeting
      desk_constructed (next (next here activates) (hears (serialize greeting) (codes "BBB=")))

handle_incoming-Injects_example :
    Injects canonical on_lap
      (codes "AAA=")
      (handle_incoming canonical on_lap (serialize greeting) (codes "AAA="))
handle_incoming-Injects_example =
    handle_incoming-Injects canonical on_lap (serialize greeting) (codes "AAA=")

abbrev desk_infos : RemotePeerEntry
desk_infos = record { infos = own_infos pair; pc_pubkey = codes "AAA="; ts = 0 }

announced_example :
    (body : Value) × ((local_peers_body pair ≡ some body)
      × (Dict.get
            (handle_incoming canonical on_lap
              (serialize (control_envelope on_desk (codes "BBB=") body))
              (codes "AAA=")).remote_peers
            (codes "AAA=")
          ≡ some desk_infos))
unfolding text_eq
announced_example =
    announced canonical on_desk on_lap (codes "desk") (codes "lap") (codes "AAA=") (codes "BBB=")
      (codes "AAA=") desk-Knows lap-Knows pair_sound pair_mints refl refl

abbrev old_id : Text
old_id = codes "0190a0b0000070008000000000000001"

old_id_normalized : normalized_relay_id old_id ≡ some (codes "0190a0b0-0000-7000-8000-000000000001")
unfolding normalized_relay_id
old_id_normalized = refl
