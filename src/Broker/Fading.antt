-- ===== src/Broker/Fading.antt =====
-- Sockets close: what that does to the registry.
use un_bien.Prelude.{
  ◌≡◌, refl, sym, ◌∙◌, subst, ℕ, ◌<◌, ◌≢◌, true, false, false≢true, some, [], ◌∷◌, Text, text_eq,
  text_eq-false, text_cases, arith, Bool-cases, inl, inr, ◌==◌, if_elim, option_elim,
}
use un_bien.Prelude.Dict
use un_bien.Prelude.Dict.{Dict}
use un_bien.Envelope.{non_empty}
use un_bien.Broker.State.{Broker, update_conn, destroy_socket, peer_left}
use un_bien.Broker.Registry.{on_close, destroy_all, close_all, orphan}
use un_bien.Broker.Quiet.{Quiet, broadcast_system-Quiet}
use un_bien.Broker.Invariant.{WellFormed, IsListed, Owns, Quiet-WellFormed}

-- Nothing has changed but that sockets may have closed.
pub record Fades (b b' : Broker) : Type 0 where
  pub peers : b'.peers ≡ b.peers
  pub accepted : b'.accepted ≡ b.accepted
  pub name : (c : ℕ) → (b'.conns c).name ≡ (b.conns c).name
  pub cwd : (c : ℕ) → (b'.conns c).cwd ≡ (b.conns c).cwd
  pub address : (c : ℕ) → (b'.conns c).address ≡ (b.conns c).address
  pub opened : (c : ℕ) → (b'.conns c).destroyed ≡ false → (b.conns c).destroyed ≡ false

Fades-refl : (b : Broker) → Fades b b
Fades-refl b = record {
  peers = refl;
  accepted = refl;
  name = λ c. refl;
  cwd = λ c. refl;
  address = λ c. refl;
  opened = λ c h. h;
}

Fades-trans : {a b c : Broker} → Fades a b → Fades b c → Fades a c
Fades-trans h k = record {
  peers = k.peers ∙ h.peers;
  accepted = k.accepted ∙ h.accepted;
  name = λ c. k.name c ∙ h.name c;
  cwd = λ c. k.cwd c ∙ h.cwd c;
  address = λ c. k.address c ∙ h.address c;
  opened = λ c e. h.opened c (k.opened c e);
}

pub destroy_socket-Fades : (b : Broker) (d : ℕ) → Fades b (destroy_socket b d)
unfolding destroy_socket update_conn
destroy_socket-Fades b d = record {
  peers = refl;
  accepted = refl;
  name = λ c. ground arith;
  cwd = λ c. ground arith;
  address = λ c. ground arith;
  opened = λ c h. ground arith;
}

pub destroy_socket_closed : (b : Broker) (d : ℕ) → ((destroy_socket b d).conns d).destroyed ≡ true
unfolding destroy_socket update_conn
destroy_socket_closed b d = ground arith

destroy_all-Fades : (ps : Dict ℕ) (b : Broker) → Fades b (destroy_all ps b)
unfolding destroy_all
destroy_all-Fades [] b = Fades-refl b
destroy_all-Fades ((a, c) ∷ rest) b =
    Fades-trans (destroy_socket-Fades b c) (destroy_all-Fades rest (destroy_socket b c))

stays_closed :
    (b b' : Broker) (c : ℕ)
    → Fades b b'
    → (b.conns c).destroyed ≡ true
    → (b'.conns c).destroyed ≡ true
stays_closed b b' c f h = elim (Bool-cases (b'.conns c).destroyed) [
  | inl e ↦ e
  | inr e ↦ absurd (false≢true (sym (f.opened c e) ∙ h))
]

destroy_all_closed :
    (ps : Dict ℕ) (b : Broker) (a : Text) (c : ℕ)
    → Dict.get ps a ≡ some c
    → ((destroy_all ps b).conns c).destroyed ≡ true
unfolding destroy_all Dict.get
destroy_all_closed [] b a c h = cc
destroy_all_closed ((k, d) ∷ rest) b a c h = elim (Bool-cases (text_eq k a)) [
  | inl e ↦
      let same : d ≡ c = ground (arith, e) in
      stays_closed (destroy_socket b d) (destroy_all rest (destroy_socket b d)) c
        (destroy_all-Fades rest (destroy_socket b d))
        (subst (λ e. ((destroy_socket b d).conns e).destroyed ≡ true) same
          (destroy_socket_closed b d))
  | inr e ↦ destroy_all_closed rest (destroy_socket b d) a c (ground (arith, e))
]

Fades-Owns : (b b' : Broker) (a : Text) (c : ℕ) → Fades b b' → Owns b a c → Owns b' a c
Fades-Owns b b' a c f o = record {
  here = f.address c ∙ o.here;
  fits = rw (f.name c, f.cwd c) o.fits;
  known = omega (arith, o.known, f.accepted);
}

Fades-IsListed : (b b' : Broker) (c : ℕ) → Fades b b' → IsListed b c → IsListed b' c
Fades-IsListed b b' c f h n = rw (f.peers, f.address c) (h (rw (f.name c) at n))

pub Fades-WellFormed : {b b' : Broker} → Fades b b' → WellFormed b → WellFormed b'
Fades-WellFormed {b} {b'} f w = record {
  distinct = rw f.peers w.distinct;
  bounded = rw f.peers w.bounded;
  owned = λ a c h. Fades-Owns b b' a c f (w.owned a c (rw f.peers at h));
  listed = λ c h. Fades-IsListed b b' c f (w.listed c (f.opened c h));
}

-- What handling a line of `c` needs and keeps: `c` is in the registry once it has a name.
pub record Serves (c : ℕ) (b : Broker) : Type 0 where
  pub sound : WellFormed b
  pub known : c < b.accepted
  pub own : IsListed b c

pub Quiet-Serves : (c : ℕ) {b b' : Broker} → Quiet b b' → Serves c b → Serves c b'
Quiet-Serves c {b} {b'} q s = record {
  sound = Quiet-WellFormed q s.sound;
  known = omega (arith, s.known, q.accepted);
  own = λ n. rw (q.peers, (q.conns c).address) (s.own (rw (q.conns c).name at n));
}

pub Fades-Serves : (c : ℕ) {b b' : Broker} → Fades b b' → Serves c b → Serves c b'
Fades-Serves c {b} {b'} f s = record {
  sound = Fades-WellFormed f s.sound;
  known = omega (arith, s.known, f.accepted);
  own = Fades-IsListed b b' c f s.own;
}

-- The entry of a connection that has closed may go.
remove-WellFormed :
    (b : Broker) (a : Text) (c : ℕ)
    → WellFormed b
    → Dict.get b.peers a ≡ some c
    → (b.conns c).destroyed ≡ true
    → WellFormed (record b { peers = Dict.delete b.peers a })
remove-WellFormed b a c w h closed = record {
  distinct = Dict.delete-Distinct b.peers a w.distinct;
  bounded = omega (arith, Dict.length-delete-le b.peers a, w.bounded);
  owned = λ k d e. owner k d (w.owned k d (ground (arith, Dict.get-delete b.peers a k)));
  listed = λ d e n. elim (text_cases a (b.conns d).address) [
    | inl same ↦ absurd (ground (arith, w.listed d e n, same))
    | inr other ↦
        rw (Dict.get-delete b.peers a (b.conns d).address, text_eq-false a _ other) (w.listed d e n)
  ];
}
  where
    owner : (k : Text) (d : ℕ) → Owns b k d → Owns (record b { peers = Dict.delete b.peers a }) k d
    owner k d o = record { here = o.here; fits = o.fits; known = o.known }

pub on_close-WellFormed : (b : Broker) (c : ℕ) → WellFormed b → WellFormed (on_close b c)
unfolding on_close
on_close-WellFormed b c w =
    if_elim WellFormed (non_empty (b.conns c).address)
      (λ _.
        option_elim WellFormed (Dict.get b.peers (b.conns c).address) (λ _. gone)
          λ d e.
            if_elim WellFormed (d == c)
              (λ same.
                Quiet-WellFormed
                  (broadcast_system-Quiet _ (peer_left (b.conns c).address) (b.conns c).address)
                  (remove-WellFormed (destroy_socket b c) (b.conns c).address c gone
                    (listed d e same) (destroy_socket_closed b c)))
              (λ _. gone))
      (λ _. gone)
  where
    gone : WellFormed (destroy_socket b c)
    gone = Fades-WellFormed (destroy_socket-Fades b c) w

    listed :
        (d : ℕ)
        → Dict.get b.peers (b.conns c).address ≡ some d
        → (d == c) ≡ true
        → Dict.get (destroy_socket b c).peers (b.conns c).address ≡ some c
    listed d e same = rw (destroy_socket-Fades b c).peers (ground arith)

pub close_all-WellFormed : (b : Broker) → WellFormed b → WellFormed (close_all b)
unfolding close_all
close_all-WellFormed b w = record {
  distinct = tt;
  bounded = omega arith;
  owned = λ a c h. absurd (nowhere a c h);
  listed = λ c e n.
      let f = destroy_all-Fades b.peers b in
      let old = w.listed c (f.opened c e) (rw (f.name c) at n) in
      absurd (false≢true (sym e ∙ destroy_all_closed b.peers b (b.conns c).address c old));
}
  where
    nowhere : (a : Text) (c : ℕ) → Dict.get {V = ℕ} [] a ≢ some c
    nowhere a c h = unfold Dict.get in cc

pub orphan-WellFormed : (b : Broker) → WellFormed b → WellFormed (orphan b)
unfolding orphan
orphan-WellFormed b w =
    let v = close_all-WellFormed b w in
    record {
      distinct = v.distinct;
      bounded = v.bounded;
      owned = λ a c h.
          let o = v.owned a c h in record { here = o.here; fits = o.fits; known = o.known };
      listed = v.listed;
    }
