-- ===== src/Broker/Entering.antt =====
-- Registering puts the connection under its address and evicts whom it takes over.
use un_bien.Prelude.{
  ◌≡◌, refl, sym, ◌∙◌, ℕ, ◌≤◌, ◌<◌, ◌≢◌, Bool, true, false, false≢true, none, some, [], Text,
  text_eq, text_eq-false, arith, if◌then◌else◌, length, ◌==◌, if_elim, option_elim,
}
use un_bien.Prelude.Dict
use un_bien.Envelope.{non_empty}
use un_bien.Address.{max_peers_update_entries}
use un_bien.Broker.State.{Broker}
use un_bien.Broker.Naming.{Identity}
use un_bien.Broker.Registry.{name_conn, evict, enter}
use un_bien.Broker.Identity.{Grants}
use un_bien.Broker.Quiet.{SamePeer}
use un_bien.Broker.Invariant.{WellFormed, Puts}

-- The eviction of the connection `old`.
abbrev evicted : Broker → Text → ℕ → Broker
evicted b address old = record b {
  conns =
      λ d. if d == old then record (b.conns d) { address = []; destroyed = true } else b.conns d;
  peers = Dict.delete b.peers address;
}

evict_cases {ℓ} :
    (P : Broker → Type ℓ) (b : Broker) (i : Identity)
    → (i.replaces ≡ false → P b)
    → (i.replaces ≡ true → Dict.get b.peers i.address ≡ none → P b)
    → ((old : ℕ)
        → i.replaces ≡ true
        → Dict.get b.peers i.address ≡ some old
        → P (evicted b i.address old))
    → P (evict b i)
unfolding evict
evict_cases P b i keep missing drop =
    if_elim P i.replaces
      (λ r. option_elim P (Dict.get b.peers i.address) (λ e. missing r e) (λ old e. drop old r e))
      keep

module _ (b : Broker) (c : ℕ) (cwd : Text) (takeover : Bool) (i : Identity) (w : WellFormed b)
    (g : Grants b.peers cwd takeover i) (known : c < b.accepted)
    (new : non_empty (b.conns c).name ≡ false) where
  -- A connection with no name is nowhere in the registry.
  unlisted : (a : Text) → Dict.get b.peers a ≢ some c
  unlisted a h = false≢true (sym new ∙ (w.owned a c h).fits.named)

  enter-get : (a : Text) → a ≢ i.address → Dict.get (enter b c cwd i).peers a ≡ Dict.get b.peers a
  unfolding enter
  enter-get a ne =
      evict_cases (λ x. Dict.get (Dict.set x.peers i.address c) a ≡ Dict.get b.peers a)
        (name_conn b c cwd i) i (λ _. set_other b.peers) (λ _ _. set_other b.peers)
        λ old _ _. set_other (Dict.delete b.peers i.address) ∙ delete_other
    where
      apart : text_eq i.address a ≡ false
      apart = text_eq-false i.address a (λ e. ne (sym e))

      set_other : (m : Dict.Dict ℕ) → Dict.get (Dict.set m i.address c) a ≡ Dict.get m a
      set_other m = rw (Dict.get-set m i.address a c, apart)

      delete_other : Dict.get (Dict.delete b.peers i.address) a ≡ Dict.get b.peers a
      delete_other = rw (Dict.get-delete b.peers i.address a, apart)

  enter_self :
      ((enter b c cwd i).conns c).address ≡ i.address
      × (((enter b c cwd i).conns c).name ≡ i.name)
      × (((enter b c cwd i).conns c).cwd ≡ cwd)
  unfolding enter
  enter_self =
      evict_cases
        (λ x.
          ((x.conns c).address ≡ i.address) × ((x.conns c).name ≡ i.name) × ((x.conns c).cwd ≡ cwd))
        (name_conn b c cwd i) i (λ _. ground arith) (λ _ _. ground arith)
        λ old _ e. ground (arith, unlisted i.address)

  enter_others :
      (d : ℕ)
      → d ≢ c
      → Dict.get b.peers i.address ≢ some d
      → SamePeer (b.conns d) ((enter b c cwd i).conns d)
  unfolding enter
  enter_others d ne other =
      evict_cases (λ x. SamePeer (b.conns d) (x.conns d)) (name_conn b c cwd i) i
        (λ _. ground arith) (λ _ _. ground arith) λ old _ e. ground arith

  enter_gone :
      (d : ℕ)
      → d ≢ c
      → Dict.get b.peers i.address ≡ some d
      → ((enter b c cwd i).conns d).destroyed ≡ true
  unfolding enter
  enter_gone d ne e =
      evict_cases (λ x. (x.conns d).destroyed ≡ true) (name_conn b c cwd i) i
        (λ r. absurd (ground (arith, (g.fresh r).0))) (λ _ k. absurd (ground arith))
        λ old _ k. ground arith

  pub enter-Puts : Puts b (enter b c cwd i) c i.address
  unfolding enter
  enter-Puts = record {
    at = Dict.get-set_self (evict (name_conn b c cwd i) i).peers i.address c;
    back = λ a d ne h.
        let old = sym (enter-get a ne) ∙ h in (old, λ same. unlisted a (rw same at old));
    kept = λ a d ne _ h. enter-get a ne ∙ h;
    here = enter_self.0;
    fits = rw (enter_self.1, enter_self.2) g.fits;
    others = enter_others;
    gone = enter_gone;
    distinct = Dict.set-Distinct (evict (name_conn b c cwd i) i).peers i.address c (
        evict_cases (λ x. Dict.Distinct x.peers) (name_conn b c cwd i) i (λ _. w.distinct)
          (λ _ _. w.distinct) λ _ _ _. Dict.delete-Distinct b.peers i.address w.distinct);
    bounded = room;
    accepted =
        evict_cases (λ x. x.accepted ≡ b.accepted) (name_conn b c cwd i) i (λ _. refl) (λ _ _. refl)
          λ _ _ _. refl;
    known = known;
  }
    where
      room : length (enter b c cwd i).peers ≤ max_peers_update_entries
      room =
          evict_cases (λ x. length (Dict.set x.peers i.address c) ≤ max_peers_update_entries)
            (name_conn b c cwd i) i
            (λ r. ground (arith, (g.fresh r).0, (g.fresh r).1, Dict.length-set b.peers i.address c))
            (λ r e. ground (arith, (g.replacing r).2))
            λ old _ e. ground (
              arith,
              Dict.length-set (Dict.delete b.peers i.address) i.address c,
              Dict.length-delete-lt b.peers i.address old e,
              w.bounded,
            )
