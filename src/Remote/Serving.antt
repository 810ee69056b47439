-- ===== src/Remote/Serving.antt =====
-- The router's operations keep what it keeps under keys of its siblings.
use un_bien.Prelude.{
  ◌≡◌, refl, sym, ◌∙◌, ℕ, Bool, true, false, ◌&&◌, some, List, [], ◌∷◌, Text, arith, subst, ap,
  contains, if_elim, option_elim,
}
use un_bien.Prelude.Dict
use un_bien.Prelude.Dict.{Dict}
use un_bien.Json.{Value}
use un_bien.Envelope.{Envelope, Recipients, one, many}
use un_bien.Broker.State.{Broker}
use un_bien.Remote.Prefix.{parse_address}
use un_bien.Remote.Roster.{local_peers_body, peers_request_body}
use un_bien.Remote.State.{
  BrokerRemote, PiForwardClient, LifecycleState, dormant, active, detached, is_active, send,
  send_control_envelope, legacy_label_for_pubkey,
}
use un_bien.Remote.Cache.{clear_all_pending_fills, clear_fills_of, clear_pending_fills}
use un_bien.Remote.Lifecycle.{
  announce_to, told, bootstrap_with_siblings, activate, activate_in, detach, detach_in, reannounce,
  send_to_each, on_local_peers_changed, has_siblings, attach, stopped,
}
use un_bien.Remote.Outbound.{
  try_route_outbound, try_route_to, route_to_address, route_to_canonical_sibling, ask_for_peers,
  rewritten,
}
use un_bien.Remote.Keyed.{
  Keyed, Sound, Within, has_of_get, with_fills, delete-Within, with_needed, with_lifecycle,
  await_peers_fill-Sound,
}
use un_bien.Remote.Pruning.{clear_pending_fills_keeps}

-- What does not depend on the broker and the client is the same after sending.
abbrev Calm : (BrokerRemote → Type 0) → Type 0
Calm P =
    (r : BrokerRemote) (broker : Broker) (pi : PiForwardClient)
    → P r
    → P (record r { broker = broker; pi = pi })

announce_to-Calm :
    (P : BrokerRemote → Type 0)
    → Calm P
    → (r : BrokerRemote) (ks : List Text) (body : Value) → P r
    → P (announce_to r ks body)
unfolding announce_to send_control_envelope
announce_to-Calm P calm r [] body w = w
announce_to-Calm P calm r (k ∷ ks) body w =
    announce_to-Calm P calm (told r k body) ks body (calm r _ _ w)

send_to_each-Calm :
    (P : BrokerRemote → Type 0)
    → Calm P
    → (r : BrokerRemote) (ks : List Text) (body : Value) → P r
    → P (send_to_each r ks body)
unfolding send_to_each send_control_envelope
send_to_each-Calm P calm r [] body w = w
send_to_each-Calm P calm r (k ∷ ks) body w =
    send_to_each-Calm P calm (send_control_envelope r k body) ks body (calm r _ _ w)

bootstrap-Calm :
    (P : BrokerRemote → Type 0)
    → Calm P
    → (r r' : BrokerRemote) → bootstrap_with_siblings r ≡ some r'
    → P r
    → P r'
unfolding bootstrap_with_siblings
bootstrap-Calm P calm r r' h w =
    option_elim (λ o. o ≡ some r' → P r') (local_peers_body r.broker) (λ _ e. absurd (cc))
      (λ body _ e.
        subst P (injective e)
          (announce_to-Calm P calm r (Dict.keys r.routing.sibling_by_pubkey) body w))
      h
  where
    injective : {a b : BrokerRemote} → some a ≡ some b → a ≡ b
    injective e = cc

pub none-needed : (known : Dict Text) → Within (contains []) known
unfolding contains
none-needed known k h = absurd (ground arith)

activate_in-Sound : (s : LifecycleState) (r : BrokerRemote) → Sound r → Sound (activate_in s r).0
unfolding activate_in
activate_in-Sound active r w = w
activate_in-Sound detached r w = w
activate_in-Sound dormant r w =
    option_elim Started (bootstrap_with_siblings (attach r))
      (λ _. with_lifecycle w false detached refl)
      (λ r' h.
        bootstrap-Calm (λ a. Keyed a.routing a.remote_peers a.pending_fills [] a.listens active)
          (λ _ _ _ x. x) (attach r) r' h
          (with_needed (with_lifecycle w true active refl) []
            (none-needed r.routing.sibling_by_pubkey)))
  where
    Started : BrokerRemote × Bool → Type 0
    Started p = Sound p.0

pub activate-Sound : (r : BrokerRemote) → Sound r → Sound (activate r).0
unfolding activate
activate-Sound r w = activate_in-Sound r.lifecycle r w

-- A change of neither the promises nor what was resolved is not seen by the clearing of promises.
clear_fills_of-Keeps {ℓ} :
    {A : Type ℓ} (f : BrokerRemote → A)
    → ((r : BrokerRemote) (fills : Dict (List ℕ)) (filled : List ℕ)
        → f (record r { pending_fills = fills; filled = filled }) ≡ f r)
    → (r : BrokerRemote) (ks : List Text) → f (clear_fills_of r ks) ≡ f r
unfolding clear_fills_of
clear_fills_of-Keeps f same r [] = refl
clear_fills_of-Keeps f same r (k ∷ ks) =
    clear_fills_of-Keeps f same (clear_pending_fills r k) ks ∙ clear_pending_fills_keeps f same r k

-- A router that has stopped and no longer listens.
abbrev Silent : BrokerRemote → Type 0
Silent r = Keyed r.routing r.remote_peers r.pending_fills r.topology_refresh_needed false detached

clear_fills_of-Silent :
    (r : BrokerRemote) (ks : List Text) → Silent r → Silent (clear_fills_of r ks)
unfolding clear_fills_of clear_pending_fills
clear_fills_of-Silent r [] w = w
clear_fills_of-Silent r (k ∷ ks) w = clear_fills_of-Silent (clear_pending_fills r k) ks (
    option_elim Silent (Dict.get r.pending_fills k) (λ _. w)
      λ slots _.
        with_fills w _ (delete-Within r.pending_fills r.routing.sibling_by_pubkey k w.awaited))

stopped-Silent : (r : BrokerRemote) → Sound r → Silent (stopped r)
unfolding clear_all_pending_fills
stopped-Silent r w =
    with_needed
      (clear_fills_of-Silent (record r { reannounces = false; lifecycle = detached })
        (Dict.keys r.pending_fills) (with_lifecycle w false detached refl))
      [] (none-needed _)

detach_in-Sound :
    (s : LifecycleState) (r : BrokerRemote) → r.lifecycle ≡ s → Sound r → Sound (detach_in s r)
unfolding detach_in clear_all_pending_fills
detach_in-Sound detached r e w = w
detach_in-Sound dormant r e w = with_lifecycle (stopped-Silent r w) _ _ (
    kept (λ a. a.listens) (λ _ _ _. refl)
    ∙ w.heard
    ∙ ap is_active e
    ∙ sym (ap is_active (kept (λ a. a.lifecycle) (λ _ _ _. refl))))
  where
    kept :
        {A : Type 0} (f : BrokerRemote → A)
        → ((r : BrokerRemote) (fills : Dict (List ℕ)) (filled : List ℕ)
            → f (record r { pending_fills = fills; filled = filled }) ≡ f r)
        → f (clear_all_pending_fills (record r { reannounces = false; lifecycle = detached }))
          ≡ f (record r { reannounces = false; lifecycle = detached })
    kept f same =
        clear_fills_of-Keeps f same (record r { reannounces = false; lifecycle = detached })
          (Dict.keys r.pending_fills)
detach_in-Sound active r e w = with_lifecycle (stopped-Silent r w) _ _ (
    sym (
      ap is_active (
        clear_fills_of-Keeps (λ a. a.lifecycle) (λ _ _ _. refl)
          (record r { reannounces = false; lifecycle = detached }) (Dict.keys r.pending_fills))))

pub detach-Sound : (r : BrokerRemote) → Sound r → Sound (detach r)
unfolding detach
detach-Sound r w = detach_in-Sound r.lifecycle r refl w

pub reannounce-Sound : (r : BrokerRemote) → Sound r → Sound (reannounce r)
unfolding reannounce
reannounce-Sound r w =
    if_elim Sound (r.reannounces && is_active r.lifecycle && has_siblings r)
      (λ _.
        option_elim Sound (bootstrap_with_siblings r) (λ _. w)
          λ r' h. with_needed (bootstrap-Calm Sound (λ _ _ _ x. x) r r' h w) [] (none-needed _))
      (λ _. w)

pub on_local_peers_changed-Sound : (r : BrokerRemote) → Sound r → Sound (on_local_peers_changed r)
unfolding on_local_peers_changed
on_local_peers_changed-Sound r w =
    if_elim Sound (is_active r.lifecycle && has_siblings r)
      (λ _.
        option_elim Sound (local_peers_body r.broker) (λ _. w)
          λ body _.
            send_to_each-Calm Sound (λ _ _ _ x. x) r (Dict.keys r.routing.sibling_by_pubkey) body w)
      (λ _. w)

abbrev Routed : BrokerRemote × Bool → Type 0
Routed p = Sound p.0

ask_for_peers-Sound :
    (r : BrokerRemote) (k : Text)
    → Sound r
    → Dict.has r.routing.sibling_by_pubkey k ≡ true
    → Sound (ask_for_peers r k)
unfolding ask_for_peers send_control_envelope
ask_for_peers-Sound r k w h =
    if_elim Sound (Dict.has r.remote_peers k) (λ _. w)
      (λ _. await_peers_fill-Sound (send_control_envelope r k peers_request_body) k w h)

route_to_address-Sound :
    (r : BrokerRemote) (to : Text) (env : Envelope) → Sound r → Routed (route_to_address r to env)
unfolding route_to_address route_to_canonical_sibling
route_to_address-Sound r to env w =
    option_elim Routed (parse_address to) (λ _. w)
      λ parsed _.
        option_elim Routed (Dict.get r.routing.sibling_by_label parsed.0) (λ _. w)
          λ k h.
            option_elim Routed (legacy_label_for_pubkey r k) (λ _. w)
              λ legacy _.
                ask_for_peers-Sound (send r k (rewritten r legacy parsed.1 env)) k w
                  (has_of_get r.routing.sibling_by_pubkey k parsed.0 (w.tables.forth parsed.0 k h))

try_route_to-Sound :
    (r : BrokerRemote) (to : Recipients) (env : Envelope) → Sound r → Routed (try_route_to r to env)
unfolding try_route_to
try_route_to-Sound r (many ts) env w = w
try_route_to-Sound r (one to) env w =
    if_elim Routed (is_active r.lifecycle) (λ _. route_to_address-Sound r to env w) (λ _. w)

pub try_route_outbound-Sound :
    (r : BrokerRemote) (env : Envelope) → Sound r → Sound (try_route_outbound r env).0
unfolding try_route_outbound
try_route_outbound-Sound r env w = try_route_to-Sound r env.to env w
