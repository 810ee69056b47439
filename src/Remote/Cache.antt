-- ===== src/Remote/Cache.antt =====
-- The cached rosters of the siblings, and the promises that wait for one.
use un_bien.Prelude.{
  ℕ, ◌+◌, ◌-◌, Bool, true, false, not, List, [], ◌∷◌, ◌++◌, map, Text, if◌then◌else◌, ltb, ◌==◌,
  option_else, keep,
}
use un_bien.Prelude.Dict
use un_bien.Prelude.Dict.{Dict}
use un_bien.Address.{PeerInfo}
use un_bien.Remote.Prefix.{with_prefix}
use un_bien.Remote.Roster.{WirePeerInfo}
use un_bien.Remote.State.{BrokerRemote, RemotePeerEntry}

abbrev pub forget_peers : BrokerRemote → Text → BrokerRemote
forget_peers r key = record r { remote_peers = Dict.delete r.remote_peers key }

-- Whether an entry is older than the time to live.
abbrev pub is_stale : BrokerRemote → RemotePeerEntry → Bool
is_stale r entry = ltb r.cache_ttl_ms (r.now - entry.ts)

-- The roster of a sibling; one that is too old is dropped.
unfoldable pub remote_infos_by_pubkey : BrokerRemote → Text → BrokerRemote × List WirePeerInfo
remote_infos_by_pubkey r key =
    option_else (Dict.get r.remote_peers key) (r, [])
      λ (entry : RemotePeerEntry).
        if is_stale r entry then (forget_peers r key, []) else (r, entry.infos)

abbrev pub wire_address : WirePeerInfo → Text
wire_address i = i.address

unfoldable pub get_remote_peers : BrokerRemote → Text → BrokerRemote × List Text
unfolding remote_infos_by_pubkey
get_remote_peers r label =
    option_else (Dict.get r.routing.sibling_by_label label) (r, [])
      λ key. let (r', infos) = remote_infos_by_pubkey r key in (r', map wire_address infos)

-- The siblings with their rosters, in the order of the table.
unfoldable pub collect : BrokerRemote → Dict Text → BrokerRemote × List (Text × List WirePeerInfo)
unfolding remote_infos_by_pubkey
collect r [] = (r, [])
collect r ((key, label) ∷ rest) =
    let (r', infos) = remote_infos_by_pubkey r key in
    let (r'', more) = collect r' rest in (r'', (label, infos) ∷ more)

abbrev has_peers : Text × List WirePeerInfo → Bool
has_peers (label, []) = false
has_peers (label, i ∷ is) = true

unfoldable pub get_all_remote : BrokerRemote → BrokerRemote × Dict (List Text)
unfolding collect
get_all_remote r =
    let (r', found) = collect r r.routing.sibling_by_pubkey in
    (r', map (λ (e : Text × List WirePeerInfo). (e.0, map wire_address e.1)) (keep has_peers found))

unfoldable pub remote_info : Text → WirePeerInfo → PeerInfo
remote_info label i = record {
  pc = label;
  cwd = i.cwd;
  name = i.name;
  address = with_prefix label i.address;
}

unfoldable pub remote_infos : List (Text × List WirePeerInfo) → List PeerInfo
unfolding remote_info
remote_infos [] = []
remote_infos ((label, infos) ∷ rest) = map (remote_info label) infos ++ remote_infos rest

abbrev info_address : PeerInfo → Text
info_address i = i.address

unfoldable pub list_remote_peer_infos : BrokerRemote → BrokerRemote × List PeerInfo
unfolding collect remote_infos
list_remote_peer_infos r =
    let (r', found) = collect r r.routing.sibling_by_pubkey in (r', remote_infos found)

unfoldable pub list_remote_peers : BrokerRemote → BrokerRemote × List Text
unfolding list_remote_peer_infos
list_remote_peers r = let (r', infos) = list_remote_peer_infos r in (r', map info_address infos)

unfoldable pub clear_pending_fills : BrokerRemote → Text → BrokerRemote
clear_pending_fills r key = option_else (Dict.get r.pending_fills key) r λ slots. record r {
  pending_fills = Dict.delete r.pending_fills key;
  filled = r.filled ++ slots;
}

unfoldable pub clear_fills_of : BrokerRemote → List Text → BrokerRemote
unfolding clear_pending_fills
clear_fills_of r [] = r
clear_fills_of r (key ∷ rest) = clear_fills_of (clear_pending_fills r key) rest

unfoldable pub clear_all_pending_fills : BrokerRemote → BrokerRemote
unfolding clear_fills_of
clear_all_pending_fills r = clear_fills_of r (Dict.keys r.pending_fills)

unfoldable pub set_remote_cache : BrokerRemote → Text → List WirePeerInfo → BrokerRemote
unfolding clear_pending_fills
set_remote_cache r key infos =
    let entry : RemotePeerEntry = record { infos = infos; pc_pubkey = key; ts = r.now } in
    clear_pending_fills (record r { remote_peers = Dict.set r.remote_peers key entry }) key

unfoldable pub await_peers_fill : BrokerRemote → Text → BrokerRemote
await_peers_fill r key =
    let pending = option_else (Dict.get r.pending_fills key) [] (λ slots. slots) in
    record r {
      pending_fills = Dict.set r.pending_fills key (pending ++ (r.fills ∷ []));
      fills = r.fills + 1;
    }

-- The slots of a key without one of them; a key without slots goes.
abbrev pub put_slots : Dict (List ℕ) → Text → List ℕ → Dict (List ℕ)
put_slots fills key [] = Dict.delete fills key
put_slots fills key (slot ∷ slots) = Dict.set fills key (slot ∷ slots)

-- The timer of a slot fires, unless it was cleared.
unfoldable pub fill_times_out : BrokerRemote → Text → ℕ → BrokerRemote
fill_times_out r key slot = option_else (Dict.get r.pending_fills key) r λ slots. record r {
  pending_fills = put_slots r.pending_fills key (keep (λ s. not (s == slot)) slots);
  filled = r.filled ++ (slot ∷ []);
}
