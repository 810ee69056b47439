-- ===== src/Remote/Pruning.antt =====
-- A change of the topology: what is kept afterwards is kept under keys of the new siblings.
use un_bien.Prelude.{
  ◌≡◌, refl, sym, subst, ◌∙◌, ap, ◌≢◌, inl, inr, ℕ, Bool, true, List, [], ◌∷◌, Text, if_elim,
  option_elim, contains, keep, Option-cases,
}
use un_bien.Prelude.Dict
use un_bien.Prelude.Dict.{Dict}
use un_bien.Json.{Value}
use un_bien.Remote.Topology.{RoutingState}
use un_bien.Remote.Tables.{IsRouting}
use un_bien.Remote.Roster.{local_peers_body}
use un_bien.Remote.State.{BrokerRemote, is_active, send_control_envelope}
use un_bien.Remote.Cache.{forget_peers, clear_pending_fills}
use un_bien.Remote.Retopology.{
  drop_unknown, forget_refresh, prune, refresh_keys, refresh_each, refreshed, refresh,
  replace_routing, is_relabelled, is_self_relabelled,
}
use un_bien.Remote.Keyed.{Sound, Within, with_needed, has-delete}
use un_bien.Remote.Dropping.{
  drop_unknown_keeps, drop_unknown_holds, contains-keys, contains-remove, add_keys-within,
  keep-Within, keys-Within,
}

abbrev peers_held : BrokerRemote → Text → Bool
peers_held r k = Dict.has r.remote_peers k

abbrev fills_held : BrokerRemote → Text → Bool
fills_held r k = Dict.has r.pending_fills k

abbrev needs_held : BrokerRemote → Text → Bool
needs_held r k = contains r.topology_refresh_needed k

pub clear_pending_fills_keeps {ℓ} :
    {A : Type ℓ} (f : BrokerRemote → A)
    → ((r : BrokerRemote) (fills : Dict (List ℕ)) (filled : List ℕ)
        → f (record r { pending_fills = fills; filled = filled }) ≡ f r)
    → (r : BrokerRemote) (k : Text) → f (clear_pending_fills r k) ≡ f r
unfolding clear_pending_fills
clear_pending_fills_keeps f same r k =
    option_elim (λ r'. f r' ≡ f r) (Dict.get r.pending_fills k) (λ _. refl) (λ slots _. same r _ _)

clear_pending_fills_gone :
    (r : BrokerRemote) (j k : Text)
    → fills_held (clear_pending_fills r j) k ≡ true
    → (fills_held r k ≡ true) × (j ≢ k)
unfolding clear_pending_fills
clear_pending_fills_gone r j k h = elim (Option-cases (Dict.get r.pending_fills j)) [
  | inl e ↦ let g : Dict.has r.pending_fills k ≡ true = rw e at h in (g, λ same. cc (e, g, same))
  | inr (slots, e) ↦ has-delete r.pending_fills j k (rw e at h)
]

module _ (r : BrokerRemote) (known : Dict Text) where
  abbrev cached : BrokerRemote
  cached = drop_unknown forget_peers known r (Dict.keys r.remote_peers)

  abbrev filled : BrokerRemote
  filled = drop_unknown clear_pending_fills known cached (Dict.keys cached.pending_fills)

  -- What none of the three passes changes.
  prune_keeps {ℓ} :
      {A : Type ℓ} (f : BrokerRemote → A)
      → ((r : BrokerRemote) (k : Text) → f (forget_peers r k) ≡ f r)
      → ((r : BrokerRemote) (fills : Dict (List ℕ)) (filled : List ℕ)
          → f (record r { pending_fills = fills; filled = filled }) ≡ f r)
      → ((r : BrokerRemote) (k : Text) → f (forget_refresh r k) ≡ f r)
      → f (prune r known) ≡ f r
  unfolding prune
  prune_keeps f a b c =
      drop_unknown_keeps forget_refresh known f c filled filled.topology_refresh_needed
      ∙ drop_unknown_keeps clear_pending_fills known f (clear_pending_fills_keeps f b) cached
          (Dict.keys cached.pending_fills)
      ∙ drop_unknown_keeps forget_peers known f a r (Dict.keys r.remote_peers)

  prune-peers : Within (peers_held (prune r known)) known
  unfolding prune
  prune-peers k h =
      let peers_same : (prune r known).remote_peers ≡ cached.remote_peers =
        drop_unknown_keeps forget_refresh known (λ r. r.remote_peers) (λ _ _. refl) filled
          filled.topology_refresh_needed
        ∙ drop_unknown_keeps clear_pending_fills known (λ r. r.remote_peers)
            (clear_pending_fills_keeps (λ r. r.remote_peers) (λ _ _ _. refl)) cached
            (Dict.keys cached.pending_fills) in
      let (held, turn) =
        drop_unknown_holds forget_peers known peers_held (λ r j k. has-delete r.remote_peers j k) r
          (Dict.keys r.remote_peers) k (subst (λ m. Dict.has m k ≡ true) peers_same h) in
      turn (contains-keys r.remote_peers k held)

  prune-fills : Within (fills_held (prune r known)) known
  unfolding prune
  prune-fills k h =
      let fills_same : (prune r known).pending_fills ≡ filled.pending_fills =
        drop_unknown_keeps forget_refresh known (λ r. r.pending_fills) (λ _ _. refl) filled
          filled.topology_refresh_needed in
      let (held, turn) =
        drop_unknown_holds clear_pending_fills known fills_held clear_pending_fills_gone cached
          (Dict.keys cached.pending_fills) k (subst (λ m. Dict.has m k ≡ true) fills_same h) in
      turn (contains-keys cached.pending_fills k held)

  prune-needs : Within (needs_held (prune r known)) known
  unfolding prune
  prune-needs k h =
      let (held, turn) =
        drop_unknown_holds forget_refresh known needs_held
          (λ r j k. contains-remove r.topology_refresh_needed j k) filled
          filled.topology_refresh_needed k h in
      turn held

-- The state with the new tables, before anyone is told.
abbrev pruned : BrokerRemote → RoutingState → BrokerRemote
pruned r s = record (prune r s.sibling_by_pubkey) { routing = s }

pruned-Sound : (r : BrokerRemote) (s : RoutingState) → Sound r → IsRouting s → Sound (pruned r s)
pruned-Sound r s w t = record {
  tables = t;
  cached = prune-peers r s.sibling_by_pubkey;
  awaited = prune-fills r s.sibling_by_pubkey;
  retried = prune-needs r s.sibling_by_pubkey;
  heard =
      prune_keeps r s.sibling_by_pubkey (λ r. r.listens) (λ _ _. refl) (λ _ _ _. refl) (λ _ _. refl)
      ∙ w.heard
      ∙ ap is_active (
          sym (
            prune_keeps r s.sibling_by_pubkey (λ r. r.lifecycle) (λ _ _. refl) (λ _ _ _. refl)
              (λ _ _. refl)));
}

refresh_keys-Within :
    (needed : List Text) (s t : RoutingState)
    → Within (contains needed) t.sibling_by_pubkey
    → Within (contains (refresh_keys needed s t)) t.sibling_by_pubkey
unfolding refresh_keys
refresh_keys-Within needed s t w =
    let changed =
      add_keys-within t.sibling_by_pubkey needed
        (Dict.keys (keep (is_relabelled s t) t.sibling_by_pubkey)) w
        (keep-Within (is_relabelled s t) t.sibling_by_pubkey) in
    if_elim (λ ks. Within (contains ks) t.sibling_by_pubkey) (is_self_relabelled s t)
      (λ _.
        add_keys-within t.sibling_by_pubkey _ (Dict.keys t.sibling_by_pubkey) changed
          (keys-Within t.sibling_by_pubkey))
      (λ _. changed)

refresh_each-Sound :
    (r : BrokerRemote) (ks : List Text) (body : Value) → Sound r → Sound (refresh_each r ks body)
unfolding refresh_each send_control_envelope
refresh_each-Sound r [] body w = w
refresh_each-Sound r (k ∷ ks) body w =
    refresh_each-Sound (refreshed r k body) ks body
      (with_needed w _ λ j h. w.retried j (contains-remove r.topology_refresh_needed k j h).0)

refresh-Sound :
    (r : BrokerRemote) (ks : List Text)
    → Sound r
    → Within (contains ks) r.routing.sibling_by_pubkey
    → Sound (refresh r ks)
unfolding refresh
refresh-Sound r [] w v = w
refresh-Sound r (k ∷ ks) w v =
    option_elim Sound (local_peers_body r.broker)
      (λ _. with_needed w _ (
        add_keys-within r.routing.sibling_by_pubkey r.topology_refresh_needed (k ∷ ks) w.retried v))
      (λ body _. refresh_each-Sound r (k ∷ ks) body w)

pub replace_routing-Sound :
    (r : BrokerRemote) (s : RoutingState) → Sound r → IsRouting s → Sound (replace_routing r s)
unfolding replace_routing
replace_routing-Sound r s w t =
    let w' = pruned-Sound r s w t in
    if_elim Sound (is_active (pruned r s).lifecycle)
      (λ _.
        refresh-Sound (pruned r s) _ w'
          (refresh_keys-Within (pruned r s).topology_refresh_needed r.routing s w'.retried))
      (λ _. w')
