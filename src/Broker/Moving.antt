-- ===== src/Broker/Moving.antt =====
-- Renaming moves the connection's entry, or puts it back.
use un_bien.Prelude.{
  ◌≡◌, refl, sym, ◌∙◌, ℕ, ◌≢◌, false, false≢true, none, some, Text, text_eq, text_eq-false,
  text_eq_refl, text_cases, arith, if◌then◌else◌, Bool-cases, inl, inr,
}
use un_bien.Prelude.Dict
use un_bien.Broker.State.{Broker, PeerConn, update_conn}
use un_bien.Broker.Naming.{Identity}
use un_bien.Broker.Registry.{move, put_back}
use un_bien.Broker.Identity.{IsIdentity, Grants}
use un_bien.Broker.Quiet.{SamePeer, SamePeer-refl}
use un_bien.Broker.Invariant.{WellFormed, Puts}

module _ (b : Broker) (c : ℕ) (w : WellFormed b)
    (listed : Dict.get b.peers (b.conns c).address ≡ some c) where
  abbrev moved : (ℕ → PeerConn) → Text → Broker
  moved conns address = record b {
    conns = conns;
    peers = Dict.set (Dict.delete b.peers (b.conns c).address) address c;
  }

  -- The connection has one entry, at its address.
  only_here : (a : Text) → Dict.get b.peers a ≡ some c → a ≡ (b.conns c).address
  only_here a h = sym (w.owned a c h).here

  moved_get :
      (address a : Text)
      → a ≢ address
      → Dict.get (Dict.set (Dict.delete b.peers (b.conns c).address) address c) a
        ≡ (if text_eq (b.conns c).address a then none else Dict.get b.peers a)
  moved_get address a ne =
      rw
        (
          Dict.get-set (Dict.delete b.peers (b.conns c).address) address a c,
          text_eq-false address a (λ e. ne (sym e)),
        )
        (Dict.get-delete b.peers (b.conns c).address a)

  moved-Puts :
      (conns : ℕ → PeerConn) (address : Text)
      → (conns c).address ≡ address
      → IsIdentity (conns c).cwd (conns c).name address
      → ((d : ℕ) → d ≢ c → SamePeer (b.conns d) (conns d))
      → ((d : ℕ) → d ≢ c → Dict.get b.peers address ≢ some d)
      → Puts b (moved conns address) c address
  moved-Puts conns address here fits others free = record {
    at = Dict.get-set_self (Dict.delete b.peers (b.conns c).address) address c;
    back = λ a d ne h. back a d ne (sym (moved_get address a ne) ∙ h);
    kept = λ a d ne other h. moved_get address a ne ∙ kept a d other h;
    here = here;
    fits = fits;
    others = λ d ne _. others d ne;
    gone = λ d ne h. absurd (free d ne h);
    distinct =
        Dict.set-Distinct _ address c (Dict.delete-Distinct b.peers (b.conns c).address w.distinct);
    bounded = ground (
      arith,
      Dict.length-set (Dict.delete b.peers (b.conns c).address) address c,
      Dict.length-delete-lt b.peers (b.conns c).address c listed,
      w.bounded,
    );
    accepted = refl;
    known = (w.owned (b.conns c).address c listed).known;
  }
    where
      back :
          (a : Text) (d : ℕ)
          → a ≢ address
          → (if text_eq (b.conns c).address a then none else Dict.get b.peers a) ≡ some d
          → (Dict.get b.peers a ≡ some d) × (d ≢ c)
      back a d ne h = elim (text_cases (b.conns c).address a) [
        | inl e ↦ absurd (ground (arith, text_eq_refl a, e))
        | inr e ↦
            let old : Dict.get b.peers a ≡ some d = rw (text_eq-false _ a e) at h in
            (old, λ same. e (sym (only_here a (rw same at old))))
      ]

      kept :
          (a : Text) (d : ℕ)
          → d ≢ c
          → Dict.get b.peers a ≡ some d
          → (if text_eq (b.conns c).address a then none else Dict.get b.peers a) ≡ some d
      kept a d other h = elim (text_cases (b.conns c).address a) [
        | inl e ↦ absurd (ground (arith, listed, e))
        | inr e ↦ rw (text_eq-false _ a e) h
      ]

  pub put_back-Puts : Puts b (put_back b c) c (b.conns c).address
  unfolding put_back
  put_back-Puts =
      moved-Puts b.conns (b.conns c).address refl (w.owned (b.conns c).address c listed).fits
        (λ d _. SamePeer-refl (b.conns d)) (λ d ne h. ground arith)

  pub move-Puts :
      (i : Identity)
      → Grants (Dict.delete b.peers (b.conns c).address) (b.conns c).cwd false i
      → Puts b (move b c i) c i.address
  unfolding move update_conn
  move-Puts i g =
      moved-Puts _ i.address (ground arith) (ground (arith, g.fits)) (λ d ne. ground arith)
        λ d ne h. elim (Bool-cases i.replaces) [
          | inl r ↦ absurd (false≢true (g.replacing r).0)
          | inr r ↦ elim (text_cases (b.conns c).address i.address) [
            | inl e ↦ absurd (ground (arith, listed, e))
            | inr e ↦ absurd (
                ground (
                  arith,
                  (g.fresh r).0,
                  Dict.get-delete b.peers (b.conns c).address i.address,
                  text_eq-false _ i.address e,
                ))
          ]
        ]
