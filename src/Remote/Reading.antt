-- ===== src/Remote/Reading.antt =====
-- A roster is read as it was written.
use un_bien.Prelude.{
  ◌≡◌, refl, ◌∙◌, ap, Bool, true, false, ◌&&◌, some, List, [], ◌∷◌, Text, text_eq, map, arith,
  if_taken, option_else, all, length, leb,
}
use un_bien.Json.{member, get_field, as_text, items_of_texts}
use un_bien.Address.{
  PeerInfo, is_bounded_peer_info, is_bounded_peer_roster, is_bounded_peer_addresses,
  max_address_length,
}
use un_bien.Broker.State.{Broker, local_peer_infos}
use un_bien.Broker.Invariant.{WellFormed}
use un_bien.Broker.Roster.{is_bounded_peer_roster-local_peer_infos}
use un_bien.Remote.Roster.{
  WirePeerInfo, wire_info, items_of_infos, address_of, peers_update_body, local_peers_body,
  texts_of_items, bounded_info, bounded_infos, bounded_roster, detailed_or_bare, parse_peers,
  parse_peers_update,
}

abbrev fits : PeerInfo → Bool
fits i = is_bounded_peer_info i.cwd i.name i.address

bounded_infos-items :
    (infos : List PeerInfo)
    → all fits infos ≡ true
    → bounded_infos (items_of_infos (map wire_info infos)) ≡ some (map wire_info infos)
unfolding bounded_infos items_of_infos bounded_info member get_field as_text text_eq
bounded_infos-items [] h = refl
bounded_infos-items (i ∷ infos) h = ground (arith, bounded_infos-items infos)

length-map : {A B : Type 0} (f : A → B) (xs : List A) → length (map f xs) ≡ length xs
length-map f [] = refl
length-map f (x ∷ xs) = omega (arith, length-map f xs)

texts_of_items-of_texts :
    (ts : List Text) → texts_of_items (items_of_texts ts) ≡ map (λ t. some t) ts
unfolding texts_of_items items_of_texts as_text
texts_of_items-of_texts [] = refl
texts_of_items-of_texts (t ∷ ts) = ap (λ us. some t ∷ us) (texts_of_items-of_texts ts)

bounded-addresses :
    (infos : List PeerInfo)
    → is_bounded_peer_roster infos ≡ true
    → is_bounded_peer_addresses (map (λ (i : PeerInfo). some i.address) infos) ≡ true
unfolding is_bounded_peer_roster is_bounded_peer_addresses is_bounded_peer_info
bounded-addresses infos h =
    ground (arith, length-map (λ (i : PeerInfo). some i.address) infos, each infos)
  where
    each :
        (is : List PeerInfo)
        → all fits is ≡ true
        → all
            (λ a. option_else a false (λ t. leb (length t) max_address_length))
            (map (λ (i : PeerInfo). some i.address) is)
          ≡ true
    each [] h = refl
    each (i ∷ is) h = ground (arith, each is)

addresses_of :
    (infos : List PeerInfo)
    → map (λ t. some t) (map address_of (map wire_info infos))
      ≡ map (λ (i : PeerInfo). some i.address) infos
addresses_of [] = refl
addresses_of (i ∷ infos) = ap (λ us. some i.address ∷ us) (addresses_of infos)

bounded_roster-items :
    (infos : List PeerInfo)
    → is_bounded_peer_roster infos ≡ true
    → bounded_roster (items_of_infos (map wire_info infos)) ≡ some (map wire_info infos)
unfolding bounded_roster is_bounded_peer_roster
bounded_roster-items infos h = ground (arith, bounded_infos-items infos, length-map wire_info infos)

pub parse_peers_update-body :
    (infos : List PeerInfo)
    → is_bounded_peer_roster infos ≡ true
    → parse_peers_update (peers_update_body (map wire_info infos)) ≡ some (map wire_info infos)
unfolding parse_peers_update peers_update_body member get_field text_eq parse_peers detailed_or_bare
parse_peers_update-body infos h =
    if_taken (λ o. o ≡ some (map wire_info infos))
      (is_bounded_peer_addresses
        (texts_of_items (items_of_texts (map address_of (map wire_info infos)))))
      _
      (ap is_bounded_peer_addresses
          (texts_of_items-of_texts (map address_of (map wire_info infos)) ∙ addresses_of infos)
        ∙ bounded-addresses infos h)
      (bounded_roster-items infos h)

abbrev pub own_infos : Broker → List WirePeerInfo
own_infos broker = map wire_info (local_peer_infos broker)

pub local_peers_body-some :
    (broker : Broker)
    → WellFormed broker
    → local_peers_body broker ≡ some (peers_update_body (own_infos broker))
unfolding local_peers_body
local_peers_body-some broker w =
    let fits = is_bounded_peer_roster-local_peer_infos broker w in
    if_taken (λ o. o ≡ some (peers_update_body (own_infos broker)))
      (is_bounded_peer_roster (local_peer_infos broker)
        && is_bounded_peer_addresses
            (map (λ (i : PeerInfo). some i.address) (local_peer_infos broker)))
      _ (ground (arith, fits, bounded-addresses (local_peer_infos broker))) refl
