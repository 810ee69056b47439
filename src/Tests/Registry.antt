-- ===== src/Tests/Registry.antt =====
-- Two peers of one folder on a broker, and the theorems about the registry applied to them.
use un_bien.Prelude.{
  ◌≡◌, refl, codes, some, none, text_eq, [], ◌∷◌, Text, ◌↔◌, ◌<◌, ℕ, true, false, Option, arith,
  contains, ◌≢◌,
}
use un_bien.Prelude.Dict
use un_bien.Address.{
  sanitize_mesh_name, compose_address, is_bounded_peer_info, is_bounded_peer_roster,
  is_valid_registered_cwd,
}
use un_bien.Json.{Value, str, obj, field, end, bool}
use un_bien.Envelope.{Envelope, one, is_uuid}
use un_bien.Broker.State.{Broker, local_peer_infos, broadcast_system}
use un_bien.Broker.Naming.{Identity, candidate_for, free_identity, identity_for_register}
use un_bien.Broker.Registry.{
  start, handle_connection, handle_register, register_request, RegisterRequest, on_close, orphan,
}
use un_bien.Broker.Routing.{handle_lines, handle_line, resolve_targets}
use un_bien.Broker.Identity.{GrantsIf, identity_for_register-Grants}
use un_bien.Broker.Invariant.{WellFormed}
use un_bien.Broker.Steps.{Reach, here, next, connects, receives, Reach-WellFormed}
use un_bien.Broker.Roster.{is_bounded_peer_roster-local_peer_infos}
use un_bien.Broker.Scope.{broadcast_targets}
use un_bien.Broker.Takeover.{takeover_outlives, orphan-register}

abbrev register : Text → Option Value
register name = some (
    obj (
      field (codes "type") (str (codes "register")) (
        field (codes "name") (str name)
          (field (codes "cwd") (str (codes "/w")) (field (codes "takeover") (bool true) end)))))

abbrev pub uuids : ℕ → Text
uuids n = codes "0190a0b0-0000-7000-8000-000000000001"

abbrev waiting : Broker
waiting = handle_connection (start uuids true)

abbrev alone : Broker
alone = handle_lines waiting 0 (register (codes "a") ∷ [])

abbrev joining : Broker
joining = handle_connection alone

abbrev pub pair : Broker
pair = handle_lines joining 1 (register (codes "b") ∷ [])

waiting_accepted : 0 < waiting.accepted
unfolding handle_connection start
waiting_accepted = ground arith

waiting_open : (waiting.conns 0).destroyed ≡ false
unfolding handle_connection start
waiting_open = refl

alone_peer : Dict.get alone.peers (codes "/w@a") ≡ some 0
unfolding handle_connection start handle_lines handle_line handle_register identity_for_register
    free_identity candidate_for text_eq Dict.get Dict.set Dict.delete sanitize_mesh_name
    compose_address is_bounded_peer_info is_valid_registered_cwd broadcast_system
alone_peer = refl

joining_accepted : 1 < joining.accepted
unfolding handle_connection start handle_lines handle_line handle_register identity_for_register
    free_identity candidate_for text_eq Dict.get Dict.set Dict.delete sanitize_mesh_name
    compose_address is_bounded_peer_info is_valid_registered_cwd broadcast_system
joining_accepted = ground arith

joining_open : (joining.conns 1).destroyed ≡ false
unfolding handle_connection start handle_lines handle_line handle_register identity_for_register
    free_identity candidate_for text_eq Dict.get Dict.set Dict.delete sanitize_mesh_name
    compose_address is_bounded_peer_info is_valid_registered_cwd broadcast_system
joining_open = refl

pair_first : Dict.get pair.peers (codes "/w@a") ≡ some 0
unfolding handle_connection start handle_lines handle_line handle_register identity_for_register
    free_identity candidate_for text_eq Dict.get Dict.set Dict.delete sanitize_mesh_name
    compose_address is_bounded_peer_info is_valid_registered_cwd broadcast_system
pair_first = refl

pair_second : Dict.get pair.peers (codes "/w@b") ≡ some 1
unfolding handle_connection start handle_lines handle_line handle_register identity_for_register
    free_identity candidate_for text_eq Dict.get Dict.set Dict.delete sanitize_mesh_name
    compose_address is_bounded_peer_info is_valid_registered_cwd broadcast_system
pair_second = refl

pub pair_mints : is_uuid (pair.uuids pair.minted) ≡ true
unfolding is_uuid handle_connection start handle_lines handle_line handle_register
    identity_for_register free_identity candidate_for text_eq Dict.get Dict.set Dict.delete
    sanitize_mesh_name compose_address is_bounded_peer_info is_valid_registered_cwd broadcast_system
pair_mints = refl

pub pair_reached : Reach (start uuids true) pair
pair_reached =
    next
      (next
        (next (next here connects)
          (receives 0 (register (codes "a") ∷ []) waiting_accepted waiting_open))
        connects)
      (receives 1 (register (codes "b") ∷ []) joining_accepted joining_open)

Reach-WellFormed_example : WellFormed pair
Reach-WellFormed_example = Reach-WellFormed uuids true pair_reached

-- A second process of the same folder and name, with `takeover`.
abbrev again : RegisterRequest
again = record { name = codes "a"; cwd = codes "/w"; takeover = true }

abbrev again_identity : Identity
again_identity = record { name = codes "a"; address = codes "/w@a"; replaces = true }

again_requested : register_request (register (codes "a")) ≡ some again
unfolding register_request is_valid_registered_cwd text_eq
again_requested = refl

again_named :
    identity_for_register joining.peers (codes "/w") (codes "a") true ≡ some again_identity
unfolding handle_connection start handle_lines handle_line handle_register identity_for_register
    free_identity candidate_for text_eq Dict.get Dict.set Dict.delete sanitize_mesh_name
    compose_address is_bounded_peer_info is_valid_registered_cwd broadcast_system
again_named = refl

joining_first : Dict.get joining.peers (codes "/w@a") ≡ some 0
unfolding handle_connection start handle_lines handle_line handle_register identity_for_register
    free_identity candidate_for text_eq Dict.get Dict.set Dict.delete sanitize_mesh_name
    compose_address is_bounded_peer_info is_valid_registered_cwd broadcast_system
joining_first = refl

takeover_outlives_example :
    Dict.get (on_close (handle_register joining 1 (register (codes "a"))) 0).peers (codes "/w@a")
    ≡ some 1
takeover_outlives_example =
    takeover_outlives joining 1 0 (register (codes "a")) again again_identity again_requested
      again_named refl joining_first

identity_for_register-Grants_example :
    GrantsIf pair.peers
      (codes "/w")
      true
      (identity_for_register pair.peers (codes "/w") (codes "b") true)
identity_for_register-Grants_example =
    identity_for_register-Grants pair.peers (codes "/w") true (codes "b")

abbrev fresh_identity : Identity
fresh_identity = record { name = codes "a"; address = codes "/w@a"; replaces = false }

fresh_named : candidate_for (codes "/w") (sanitize_mesh_name (codes "a")) ≡ some fresh_identity
unfolding handle_connection start handle_lines handle_line handle_register identity_for_register
    free_identity candidate_for text_eq Dict.get Dict.set Dict.delete sanitize_mesh_name
    compose_address is_bounded_peer_info is_valid_registered_cwd broadcast_system
fresh_named = refl

orphan-register_example :
    Dict.get (handle_register (orphan waiting) 0 (register (codes "a"))).peers (codes "/w@a")
    ≡ some 0
orphan-register_example =
    orphan-register waiting 0 (register (codes "a")) again fresh_identity again_requested
      fresh_named

abbrev to_all : Envelope
to_all = record {
  from = codes "/w@a";
  to = one (codes "broadcast");
  id = codes "0190a0b0-0000-7000-8000-000000000001";
  re = none;
  body = some (str (codes "hello"));
}

broadcast_targets_example : (contains (resolve_targets pair to_all) (codes "/w@b") ≡ true) ↔ (
    (c : ℕ) × ((Dict.get pair.peers (codes "/w@b") ≡ some c)
      × ((codes "/w@b" ≢ codes "/w@a") × ((pair.conns c).cwd ≡ (pair.conns 0).cwd))))
broadcast_targets_example =
    broadcast_targets pair to_all 0 (codes "/w@b") (Reach-WellFormed uuids true pair_reached) refl
      pair_first

is_bounded_peer_roster-local_peer_infos_example :
    is_bounded_peer_roster (local_peer_infos pair) ≡ true
is_bounded_peer_roster-local_peer_infos_example =
    is_bounded_peer_roster-local_peer_infos pair (Reach-WellFormed uuids true pair_reached)
