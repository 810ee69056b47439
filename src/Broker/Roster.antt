-- ===== src/Broker/Roster.antt =====
-- What the broker tells other machines of its peers.
use un_bien.Prelude.{◌≡◌, refl, sym, subst, ℕ, Bool, true, [], ◌∷◌, map, length, all, arith, All}
use un_bien.Prelude.Dict
use un_bien.Prelude.Dict.{Dict}
use un_bien.Address.{PeerInfo, is_bounded_peer_info, is_bounded_peer_roster}
use un_bien.Broker.State.{Broker, info_of, local_peer_infos}
use un_bien.Broker.Invariant.{WellFormed}

length-values : (ps : Dict ℕ) (f : ℕ → PeerInfo) → length (map f (Dict.values ps)) ≡ length ps
length-values [] f = refl
length-values (p ∷ ps) f = omega (arith, length-values ps f)

all-values :
    (p : PeerInfo → Bool) (f : ℕ → PeerInfo) (ps : Dict ℕ)
    → All (λ e. p (f e.1) ≡ true) ps
    → all p (map f (Dict.values ps)) ≡ true
all-values p f [] h = refl
all-values p f (e ∷ ps) h = rw (h.0) (all-values p f ps h.1)

-- The roster that a well-formed broker gives of its peers is within the limits that every receiver
-- of a roster checks.
pub is_bounded_peer_roster-local_peer_infos :
    (b : Broker) → WellFormed b → is_bounded_peer_roster (local_peer_infos b) ≡ true
unfolding is_bounded_peer_roster local_peer_infos info_of
is_bounded_peer_roster-local_peer_infos b w =
    ground (arith, length-values b.peers (λ c. info_of (b.conns c)), w.bounded, bounded)
  where
    Fits : PeerInfo → Bool
    Fits i = is_bounded_peer_info i.cwd i.name i.address

    bounded : all Fits (map (λ c. info_of (b.conns c)) (Dict.values b.peers)) ≡ true
    bounded =
        all-values Fits (λ c. info_of (b.conns c)) b.peers
          (Dict.All-of_get (λ e. Fits (info_of (b.conns e.1)) ≡ true) b.peers w.distinct
            λ a c h.
              let o = w.owned a c h in
              subst (λ t. is_bounded_peer_info (b.conns c).cwd (b.conns c).name t ≡ true)
                (sym o.here) o.fits.bounded)
