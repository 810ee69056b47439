-- ===== src/Remote/Keyed.antt =====
-- What the router keeps for other machines, it keeps under keys of its siblings: the operations that
-- do not change the topology.
use un_bien.Prelude.{
  ◌≡◌, ◌==◌, subst, ◌≢◌, inl, inr, ℕ, Bool, true, not, some, List, [], ◌∷◌, Text, text_eq_iff,
  text_cases, if_elim, option_elim, arith, contains, keep,
}
use un_bien.Prelude.Dict
use un_bien.Prelude.Dict.{Dict}
use un_bien.Json.{Value}
use un_bien.Remote.Topology.{RoutingState}
use un_bien.Remote.Tables.{IsRouting}
use un_bien.Remote.Roster.{WirePeerInfo}
use un_bien.Remote.State.{
  BrokerRemote, RemotePeerEntry, LifecycleState, is_active, send_control_envelope,
}
use un_bien.Remote.Cache.{
  remote_infos_by_pubkey, forget_peers, is_stale, collect, clear_pending_fills, clear_fills_of,
  set_remote_cache, await_peers_fill, fill_times_out, put_slots, list_remote_peer_infos,
  get_remote_peers,
}

-- All of the keys that the test holds of are keys of `known`.
abbrev pub Within : (Text → Bool) → Dict Text → Type 0
Within held known = (k : Text) → held k ≡ true → Dict.has known k ≡ true

pub record Keyed (routing : RoutingState) (peers : Dict RemotePeerEntry) (fills : Dict (List ℕ))
    (needed : List Text) (listens : Bool) (lifecycle : LifecycleState) : Type 0 where
  pub tables : IsRouting routing
  pub cached : Within (Dict.has peers) routing.sibling_by_pubkey
  pub awaited : Within (Dict.has fills) routing.sibling_by_pubkey
  pub retried : Within (contains needed) routing.sibling_by_pubkey
  pub heard : listens ≡ is_active lifecycle

module _ {routing : RoutingState} {peers : Dict RemotePeerEntry} {fills : Dict (List ℕ)}
    {needed : List Text} {listens : Bool} {lifecycle : LifecycleState}
    (w : Keyed routing peers fills needed listens lifecycle) where
  pub with_peers :
      (peers' : Dict RemotePeerEntry)
      → Within (Dict.has peers') routing.sibling_by_pubkey
      → Keyed routing peers' fills needed listens lifecycle
  with_peers peers' h = record {
    tables = w.tables;
    cached = h;
    awaited = w.awaited;
    retried = w.retried;
    heard = w.heard;
  }

  pub with_fills :
      (fills' : Dict (List ℕ))
      → Within (Dict.has fills') routing.sibling_by_pubkey
      → Keyed routing peers fills' needed listens lifecycle
  with_fills fills' h = record {
    tables = w.tables;
    cached = w.cached;
    awaited = h;
    retried = w.retried;
    heard = w.heard;
  }

  pub with_needed :
      (needed' : List Text)
      → Within (contains needed') routing.sibling_by_pubkey
      → Keyed routing peers fills needed' listens lifecycle
  with_needed needed' h = record {
    tables = w.tables;
    cached = w.cached;
    awaited = w.awaited;
    retried = h;
    heard = w.heard;
  }

  pub with_lifecycle :
      (listens' : Bool) (lifecycle' : LifecycleState)
      → listens' ≡ is_active lifecycle'
      → Keyed routing peers fills needed listens' lifecycle'
  with_lifecycle listens' lifecycle' h = record {
    tables = w.tables;
    cached = w.cached;
    awaited = w.awaited;
    retried = w.retried;
    heard = h;
  }

-- The rosters, the promises and the siblings to be told again are those of siblings, and the router
-- listens to the relay exactly while it is active.
abbrev pub Sound : BrokerRemote → Type 0
Sound r =
    Keyed r.routing r.remote_peers r.pending_fills r.topology_refresh_needed r.listens r.lifecycle

module _ {ℓ} {V : Type ℓ} where
  pub has-delete :
      (m : Dict V) (j k : Text)
      → Dict.has (Dict.delete m j) k ≡ true
      → (Dict.has m k ≡ true) × (j ≢ k)
  has-delete m j k h = (
    ground (arith, Dict.get-delete m j k),
    λ e. (ground (arith, Dict.get-delete m j k, text_eq_iff j k)),
  )

  pub has_of_get : (m : Dict V) (k : Text) (v : V) → Dict.get m k ≡ some v → Dict.has m k ≡ true
  has_of_get m k v h = ground arith

  pub delete-Within :
      (m : Dict V) (known : Dict Text) (j : Text)
      → Within (Dict.has m) known
      → Within (Dict.has (Dict.delete m j)) known
  delete-Within m known j w k h = w k (has-delete m j k h).0

  pub set-Within :
      (m : Dict V) (known : Dict Text) (j : Text) (v : V)
      → Within (Dict.has m) known
      → Dict.has known j ≡ true
      → Within (Dict.has (Dict.set m j v)) known
  set-Within m known j v w h k g = elim (text_cases j k) [
    | inl e ↦ subst (λ t. Dict.has known t ≡ true) e h
    | inr e ↦ w k (ground (arith, Dict.get-set m j k v, text_eq_iff j k))
  ]

pub clear_pending_fills-Sound :
    (r : BrokerRemote) (k : Text) → Sound r → Sound (clear_pending_fills r k)
unfolding clear_pending_fills
clear_pending_fills-Sound r k w =
    option_elim Sound (Dict.get r.pending_fills k) (λ _. w)
      λ slots _.
        with_fills w _ (delete-Within r.pending_fills r.routing.sibling_by_pubkey k w.awaited)

pub clear_fills_of-Sound :
    (r : BrokerRemote) (ks : List Text) → Sound r → Sound (clear_fills_of r ks)
unfolding clear_fills_of
clear_fills_of-Sound r [] w = w
clear_fills_of-Sound r (k ∷ ks) w =
    clear_fills_of-Sound (clear_pending_fills r k) ks (clear_pending_fills-Sound r k w)

pub remote_infos_by_pubkey-Sound :
    (r : BrokerRemote) (k : Text) → Sound r → Sound (remote_infos_by_pubkey r k).0
unfolding remote_infos_by_pubkey
remote_infos_by_pubkey-Sound r k w =
    option_elim Found (Dict.get r.remote_peers k) (λ _. w)
      λ entry _. if_elim Found (is_stale r entry) (λ _. dropped) (λ _. w)
  where
    Found : BrokerRemote × List WirePeerInfo → Type 0
    Found p = Sound p.0

    dropped : Sound (forget_peers r k)
    dropped = with_peers w _ (delete-Within r.remote_peers r.routing.sibling_by_pubkey k w.cached)

pub collect-Sound : (r : BrokerRemote) (m : Dict Text) → Sound r → Sound (collect r m).0
unfolding collect
collect-Sound r [] w = w
collect-Sound r ((k, label) ∷ m) w =
    collect-Sound (remote_infos_by_pubkey r k).0 m (remote_infos_by_pubkey-Sound r k w)

pub set_remote_cache-Sound :
    (r : BrokerRemote) (k : Text) (infos : List WirePeerInfo)
    → Sound r
    → Dict.has r.routing.sibling_by_pubkey k ≡ true
    → Sound (set_remote_cache r k infos)
unfolding set_remote_cache
set_remote_cache-Sound r k infos w h =
    clear_pending_fills-Sound _ k
      (with_peers w _ (set-Within r.remote_peers r.routing.sibling_by_pubkey k _ w.cached h))

pub await_peers_fill-Sound :
    (r : BrokerRemote) (k : Text)
    → Sound r
    → Dict.has r.routing.sibling_by_pubkey k ≡ true
    → Sound (await_peers_fill r k)
unfolding await_peers_fill
await_peers_fill-Sound r k w h =
    with_fills w _ (set-Within r.pending_fills r.routing.sibling_by_pubkey k _ w.awaited h)

pub fill_times_out-Sound :
    (r : BrokerRemote) (k : Text) (slot : ℕ) → Sound r → Sound (fill_times_out r k slot)
unfolding fill_times_out
fill_times_out-Sound r k slot w =
    option_elim Sound (Dict.get r.pending_fills k) (λ _. w)
      λ slots h.
        with_fills w _ (kept (keep (λ s. not (s == slot)) slots) (w.awaited k (ground arith)))
  where
    kept :
        (slots : List ℕ)
        → Dict.has r.routing.sibling_by_pubkey k ≡ true
        → Within (Dict.has (put_slots r.pending_fills k slots)) r.routing.sibling_by_pubkey
    kept [] h = delete-Within r.pending_fills r.routing.sibling_by_pubkey k w.awaited
    kept (s ∷ slots) h =
        set-Within r.pending_fills r.routing.sibling_by_pubkey k (s ∷ slots) w.awaited h

pub send_control_envelope-Sound :
    (r : BrokerRemote) (k : Text) (body : Value) → Sound r → Sound (send_control_envelope r k body)
unfolding send_control_envelope
send_control_envelope-Sound r k body w = w

pub list_remote_peer_infos-Sound : (r : BrokerRemote) → Sound r → Sound (list_remote_peer_infos r).0
unfolding list_remote_peer_infos
list_remote_peer_infos-Sound r w = collect-Sound r r.routing.sibling_by_pubkey w

pub get_remote_peers-Sound :
    (r : BrokerRemote) (label : Text) → Sound r → Sound (get_remote_peers r label).0
unfolding get_remote_peers
get_remote_peers-Sound r label w =
    option_elim (λ (p : BrokerRemote × List Text). Sound p.0)
      (Dict.get r.routing.sibling_by_label label) (λ _. w)
      λ key _. remote_infos_by_pubkey-Sound r key w
