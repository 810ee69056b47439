-- ===== src/Broker/Invariant.antt =====
-- The registry stays well formed: every entry is the address of a connection that goes by it, no
-- address stands twice, and no registered connection that is open is missing.
use un_bien.Prelude.{
  ◌≡◌, sym, ap, ◌∙◌, subst, ℕ, ◌≤◌, ◌<◌, ◌≢◌, true, false, some, Text, text_cases, number_cases,
  option_cases, false≢true, arith, inl, inr, length,
}
use un_bien.Prelude.Dict
use un_bien.Envelope.{non_empty}
use un_bien.Address.{max_peers_update_entries}
use un_bien.Broker.State.{Broker}
use un_bien.Broker.Identity.{IsIdentity}
use un_bien.Broker.Quiet.{Quiet, SamePeer}

pub record Owns (b : Broker) (address : Text) (c : ℕ) : Type 0 where
  pub here : (b.conns c).address ≡ address
  pub fits : IsIdentity (b.conns c).cwd (b.conns c).name address
  pub known : c < b.accepted

-- A registered connection is in the registry.
abbrev pub IsListed : Broker → ℕ → Type 0
IsListed b c = non_empty (b.conns c).name ≡ true → Dict.get b.peers (b.conns c).address ≡ some c

pub record WellFormed (b : Broker) : Type 0 where
  pub distinct : Dict.Distinct b.peers
  pub bounded : length b.peers ≤ max_peers_update_entries
  pub owned : (address : Text) (c : ℕ) → Dict.get b.peers address ≡ some c → Owns b address c
  pub listed : (c : ℕ) → (b.conns c).destroyed ≡ false → IsListed b c

SamePeer-Owns :
    (b b' : Broker) (address : Text) (c : ℕ)
    → SamePeer (b.conns c) (b'.conns c)
    → b.accepted ≤ b'.accepted
    → Owns b address c
    → Owns b' address c
SamePeer-Owns b b' address c same more o = record {
  here = same.address ∙ o.here;
  fits =
      subst (λ n. IsIdentity (b'.conns c).cwd n address) (sym same.name)
        (subst (λ w. IsIdentity w (b.conns c).name address) (sym same.cwd) o.fits);
  known = omega (arith, o.known);
}

pub Quiet-WellFormed : {b b' : Broker} → Quiet b b' → WellFormed b → WellFormed b'
Quiet-WellFormed {b} {b'} q w = record {
  distinct = rw q.peers w.distinct;
  bounded = rw q.peers w.bounded;
  owned = λ address c h.
      SamePeer-Owns b b' address c (q.conns c) (omega (arith, q.accepted))
        (w.owned address c (rw q.peers at h));
  listed = λ c h. Quiet-IsListed b b' c q (w.listed c (sym (q.conns c).destroyed ∙ h));
}
  where
    Quiet-IsListed : (b b' : Broker) (c : ℕ) → Quiet b b' → IsListed b c → IsListed b' c
    Quiet-IsListed b b' c q h n = rw (q.peers, (q.conns c).address) (h (rw (q.conns c).name at n))

-- What an operation does that puts connection `c` under `address`: another that was there is
-- destroyed, and `c` is nowhere else.
pub record Puts (b b' : Broker) (c : ℕ) (address : Text) : Type 0 where
  pub at : Dict.get b'.peers address ≡ some c
  pub back :
      (a : Text) (d : ℕ)
      → a ≢ address
      → Dict.get b'.peers a ≡ some d
      → (Dict.get b.peers a ≡ some d) × (d ≢ c)
  pub kept :
      (a : Text) (d : ℕ)
      → a ≢ address
      → d ≢ c
      → Dict.get b.peers a ≡ some d
      → Dict.get b'.peers a ≡ some d
  pub here : (b'.conns c).address ≡ address
  pub fits : IsIdentity (b'.conns c).cwd (b'.conns c).name address
  pub others :
      (d : ℕ) → d ≢ c → Dict.get b.peers address ≢ some d → SamePeer (b.conns d) (b'.conns d)
  pub gone : (d : ℕ) → d ≢ c → Dict.get b.peers address ≡ some d → (b'.conns d).destroyed ≡ true
  pub distinct : Dict.Distinct b'.peers
  pub bounded : length b'.peers ≤ max_peers_update_entries
  pub accepted : b'.accepted ≡ b.accepted
  pub known : c < b.accepted

some_eq : {m n : ℕ} → some m ≡ some n → m ≡ n
some_eq h = cc

module _ (b b' : Broker) (c : ℕ) (address : Text) (w : WellFormed b) (p : Puts b b' c address) where
  Puts-owned : (a : Text) (d : ℕ) → Dict.get b'.peers a ≡ some d → Owns b' a d
  Puts-owned a d h = elim (text_cases a address) [
    | inl e ↦
        let same : d ≡ c = some_eq (sym (rw e at h) ∙ p.at) in
        rw (e, same)
          (record { here = p.here; fits = p.fits; known = omega (arith, p.known, p.accepted) })
    | inr e ↦
        let (old, other) = p.back a d e h in
        let elsewhere : Dict.get b.peers address ≢ some d =
          λ k. e (sym (w.owned a d old).here ∙ (w.owned address d k).here) in
        SamePeer-Owns b b' a d (p.others d other elsewhere) (omega (arith, p.accepted))
          (w.owned a d old)
  ]

  Puts-IsListed : (d : ℕ) → (b'.conns d).destroyed ≡ false → IsListed b' d
  Puts-IsListed d h n = elim (number_cases d c) [
    | inl e ↦ rw (e, p.here) p.at
    | inr e ↦ elim (option_cases (Dict.get b.peers address) d) [
      | inl k ↦ absurd (false≢true (sym h ∙ p.gone d e k))
      | inr k ↦
          let same = p.others d e k in
          let old = w.listed d (sym same.destroyed ∙ h) (sym (ap non_empty same.name) ∙ n) in
          rw same.address (
            p.kept (b.conns d).address d (λ a. k (subst (λ t. Dict.get b.peers t ≡ some d) a old)) e
              old)
    ]
  ]

  pub Puts-WellFormed : WellFormed b'
  Puts-WellFormed = record {
    distinct = p.distinct;
    bounded = p.bounded;
    owned = Puts-owned;
    listed = Puts-IsListed;
  }
