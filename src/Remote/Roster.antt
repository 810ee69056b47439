-- ===== src/Remote/Roster.antt =====
-- The rosters that machines tell each other: the body of `_localPeersBody` and `_parsePeersUpdate`.
use un_bien.Prelude.{
  ◌&&◌, Option, none, some, List, [], ◌∷◌, map, Text, if◌then◌else◌, codes, leb, option_else,
  length,
}
use un_bien.Json.{
  Value, Items, str, arr, obj, nil, cons, end, field, member, as_text, items_of_texts,
}
use un_bien.Address.{
  PeerInfo, is_bounded_peer_info, is_bounded_peer_roster, is_bounded_peer_addresses,
  max_peers_update_entries,
}
use un_bien.Broker.State.{Broker, local_peer_infos}

pub record WirePeerInfo : Type 0 where
  pub cwd : Text
  pub name : Text
  pub address : Text

abbrev pub wire_info : PeerInfo → WirePeerInfo
wire_info i = record { cwd = i.cwd; name = i.name; address = i.address }

abbrev pub json_of_info : WirePeerInfo → Value
json_of_info i = obj (
    field (codes "cwd") (str i.cwd)
      (field (codes "name") (str i.name) (field (codes "address") (str i.address) end)))

unfoldable pub items_of_infos : List WirePeerInfo → Items
items_of_infos [] = nil
items_of_infos (i ∷ rest) = cons (json_of_info i) (items_of_infos rest)

abbrev pub address_of : WirePeerInfo → Text
address_of i = i.address

-- `PeersUpdateBody`
unfoldable pub peers_update_body : List WirePeerInfo → Value
unfolding items_of_infos items_of_texts
peers_update_body infos = obj (
    field (codes "type") (str (codes "peers_update")) (
      field (codes "peers") (arr (items_of_texts (map address_of infos)))
        (field (codes "peers_detailed") (arr (items_of_infos infos)) end)))

-- `PeersRequestBody`
abbrev pub peers_request_body : Value
peers_request_body = obj (field (codes "type") (str (codes "peers_request")) end)

-- `_localPeersBody`, or nothing where that throws.
unfoldable pub local_peers_body : Broker → Option Value
unfolding peers_update_body is_bounded_peer_roster is_bounded_peer_addresses local_peer_infos
local_peers_body broker =
    let detailed = local_peer_infos broker in
    if is_bounded_peer_roster detailed
      && is_bounded_peer_addresses (map (λ (i : PeerInfo). some i.address) detailed)
    then some (peers_update_body (map wire_info detailed))
    else none

unfoldable pub texts_of_items : Items → List (Option Text)
unfolding as_text
texts_of_items nil = []
texts_of_items (cons v rest) = as_text (some v) ∷ texts_of_items rest

abbrev all_texts_of : Option Text → Option Text → Option Text → Option WirePeerInfo
all_texts_of (some cwd) (some name) (some address) =
    some (record { cwd = cwd; name = name; address = address })
all_texts_of _ _ _ = none

-- `isBoundedPeerInfo` of a value, with the info that it is then.
unfoldable pub bounded_info : Value → Option WirePeerInfo
unfolding member as_text is_bounded_peer_info
bounded_info v =
    option_else
      (all_texts_of (as_text (member v (codes "cwd"))) (as_text (member v (codes "name")))
        (as_text (member v (codes "address"))))
      none (λ i. if is_bounded_peer_info i.cwd i.name i.address then some i else none)

unfoldable pub bounded_infos : Items → Option (List WirePeerInfo)
unfolding bounded_info
bounded_infos nil = some []
bounded_infos (cons v rest) =
    let more = bounded_infos rest in
    option_else (bounded_info v) none (λ i. option_else more none (λ is. some (i ∷ is)))

-- `isBoundedPeerRoster` of an array.
unfoldable pub bounded_roster : Items → Option (List WirePeerInfo)
unfolding bounded_infos
bounded_roster items =
    option_else (bounded_infos items) none
      λ infos. if leb (length infos) max_peers_update_entries then some infos else none

-- What `peers.map` makes of addresses that are all strings.
unfoldable pub bare_infos : List (Option Text) → List WirePeerInfo
bare_infos [] = []
bare_infos (none ∷ rest) = bare_infos rest
bare_infos (some a ∷ rest) = record { cwd = []; name = a; address = a } ∷ bare_infos rest

unfoldable pub detailed_or_bare : Option Value → Items → Option (List WirePeerInfo)
unfolding bounded_roster bare_infos texts_of_items
detailed_or_bare (some (arr detailed)) peers = bounded_roster detailed
detailed_or_bare _ peers = some (bare_infos (texts_of_items peers))

unfoldable pub parse_peers : Option Value → Option Value → Option (List WirePeerInfo)
unfolding detailed_or_bare is_bounded_peer_addresses texts_of_items
parse_peers (some (arr peers)) detailed =
    if is_bounded_peer_addresses (texts_of_items peers)
    then detailed_or_bare detailed peers
    else none
parse_peers _ detailed = none

unfoldable pub parse_peers_update : Value → Option (List WirePeerInfo)
unfolding parse_peers member
parse_peers_update body =
    parse_peers (member body (codes "peers")) (member body (codes "peers_detailed"))
