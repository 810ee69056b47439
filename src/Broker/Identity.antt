-- ===== src/Broker/Identity.antt =====
-- What an identity that a registration gets is worth.
use un_bien.Prelude.{
  ◌≡◌, refl, ℕ, zero, suc, ◌+◌, ◌<◌, Bool, true, false, not, Option, none, some, [], ◌∷◌, ◌++◌,
  Text, arith, if_elim, option_elim, decimal, ltb, length, leb, decimal_digits, ◌/◌,
}
use un_bien.Prelude.Dict
use un_bien.Prelude.Dict.{Dict}
use un_bien.Envelope.{non_empty}
use un_bien.Address.{
  compose_address, is_bounded_peer_info, sanitize_mesh_name, strip_suffix, max_peers_update_entries,
}
use un_bien.Address.Injective.{
  Free, Free-append, sanitize_mesh_name-Free, strip_suffix-Free, sanitize_mesh_name-non_empty,
}
use un_bien.Broker.Naming.{
  Identity, candidate_for, next_suffix, free_identity, identity_for_register, takes_over,
  suffix_rounds,
}

-- A name and an address that fit together and that a peer may have.
pub record IsIdentity (cwd name address : Text) : Type 0 where
  pub composed : address ≡ compose_address [] cwd name
  pub bounded : is_bounded_peer_info cwd name address ≡ true
  pub named : non_empty name ≡ true
  pub separable : Free b'@' name

-- The address is free and there is room, or it is taken and the registration takes it over.
pub record Grants (peers : Dict ℕ) (cwd : Text) (takeover : Bool) (i : Identity) : Type 0 where
  pub fits : IsIdentity cwd i.name i.address
  pub fresh :
      i.replaces ≡ false
      → (Dict.get peers i.address ≡ none) × (length peers < max_peers_update_entries)
  pub replacing :
      i.replaces ≡ true
      → (takeover ≡ true) × (non_empty cwd ≡ true) × (Dict.has peers i.address ≡ true)

abbrev pub GrantsIf : Dict ℕ → Text → Bool → Option Identity → Type 0
GrantsIf peers cwd takeover none = Unit
GrantsIf peers cwd takeover (some i) = Grants peers cwd takeover i

decimal_digits-Free :
    (fuel n : ℕ) (rest : Text) → Free b'@' rest → Free b'@' (decimal_digits fuel n rest)
unfolding decimal_digits
decimal_digits-Free zero n rest h = h
decimal_digits-Free (suc fuel) n rest h =
    if_elim (Free b'@') (ltb n 10) (λ e. (ground arith, h))
      (λ e. decimal_digits-Free fuel (n / 10) _ (ground arith, h))

suffixed-Free : (base : Text) (n : ℕ) → Free b'@' base → Free b'@' (base ++ (b'#' ∷ decimal n))
unfolding decimal
suffixed-Free base n h =
    Free-append b'@' base (b'#' ∷ decimal n) h (refl, decimal_digits-Free (suc n) n [] tt)

suffixed-non_empty : (base s : Text) (c : ℕ) → non_empty (base ++ (c ∷ s)) ≡ true
suffixed-non_empty [] s c = refl
suffixed-non_empty (d ∷ base) s c = refl

abbrev CandidateIf : Text → Option Identity → Type 0
CandidateIf cwd none = Unit
CandidateIf cwd (some i) = IsIdentity cwd i.name i.address × (i.replaces ≡ false)

candidate_for-fits :
    (cwd name : Text)
    → non_empty name ≡ true
    → Free b'@' name
    → CandidateIf cwd (candidate_for cwd name)
unfolding candidate_for
candidate_for-fits cwd name n f =
    if_elim (CandidateIf cwd) (is_bounded_peer_info cwd name (compose_address [] cwd name))
      (λ e. (record { composed = refl; bounded = e; named = n; separable = f }, refl)) (λ _. tt)

CandidateIf-some :
    (cwd : Text) (o : Option Identity) {i : Identity}
    → CandidateIf cwd o
    → o ≡ some i
    → IsIdentity cwd i.name i.address × (i.replaces ≡ false)
CandidateIf-some cwd o h e = rw (e, CandidateIf) at h

module _ (peers : Dict ℕ) (cwd : Text) (takeover : Bool) where
  free-Grants :
      (i : Identity)
      → IsIdentity cwd i.name i.address
      → i.replaces ≡ false
      → Dict.get peers i.address ≡ none
      → length peers < max_peers_update_entries
      → Grants peers cwd takeover i
  free-Grants i fits new free room = record {
    fits = fits;
    fresh = λ _. (free, room);
    replacing = λ e. absurd (ground arith);
  }

  next_suffix-Grants :
      (base : Text) (n rounds : ℕ)
      → Free b'@' base
      → length peers < max_peers_update_entries
      → GrantsIf peers cwd takeover (next_suffix peers cwd base n rounds)
  unfolding next_suffix
  next_suffix-Grants base n zero f room = tt
  next_suffix-Grants base n (suc rounds) f room =
      option_elim (GrantsIf peers cwd takeover) (candidate_for cwd (base ++ (b'#' ∷ decimal n)))
        (λ _. tt)
        λ i e.
          let (fits, new) =
            CandidateIf-some cwd _
              (candidate_for-fits cwd _ (suffixed-non_empty base (decimal n) b'#')
                (suffixed-Free base n f))
              e in
          if_elim (GrantsIf peers cwd takeover) (Dict.has peers i.address)
            (λ _. next_suffix-Grants base (n + 1) rounds f room)
            (λ free. free-Grants i fits new (ground arith) room)

  free_identity-Grants :
      (sanitized : Text) (i : Identity)
      → Free b'@' sanitized
      → IsIdentity cwd i.name i.address
      → i.replaces ≡ false
      → GrantsIf peers cwd takeover (free_identity peers cwd sanitized i)
  unfolding free_identity
  free_identity-Grants sanitized i f fits new =
      if_elim (GrantsIf peers cwd takeover) (leb max_peers_update_entries (length peers)) (λ _. tt)
        λ room.
          if_elim (GrantsIf peers cwd takeover) (not (Dict.has peers i.address))
            (λ free. free-Grants i fits new (ground arith) (ground arith))
            (λ _.
              next_suffix-Grants (strip_suffix sanitized) 2 suffix_rounds
                (strip_suffix-Free b'@' sanitized f) (ground arith))

  -- Whatever a peer asks to be called, the identity that it gets is a name and an address that fit
  -- together, within the limits; and either nobody has the address and the registry has room, or
  -- the registration asked to take the address over, with a folder, from the peer that has it.
  pub identity_for_register-Grants :
      (requested : Text)
      → GrantsIf peers cwd takeover (identity_for_register peers cwd requested takeover)
  unfolding identity_for_register
  identity_for_register-Grants requested =
      option_elim (GrantsIf peers cwd takeover) (candidate_for cwd sanitized) (λ _. tt)
        λ i e.
          let (fits, new) =
            CandidateIf-some cwd _
              (candidate_for-fits cwd sanitized (sanitize_mesh_name-non_empty requested) at_free)
              e in
          if_elim (GrantsIf peers cwd takeover) (takes_over peers cwd takeover i)
            (λ t. record { fits = fits; fresh = λ absurd_new. cc; replacing = λ _. ground arith })
            (λ _. free_identity-Grants sanitized i at_free fits new)
    where
      sanitized : Text
      sanitized = sanitize_mesh_name requested

      at_free : Free b'@' sanitized
      at_free = (sanitize_mesh_name-Free requested).0
