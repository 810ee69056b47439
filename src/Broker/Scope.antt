-- ===== src/Broker/Scope.antt =====
-- Whom a broadcast reaches.
use un_bien.Prelude.{
  ◌≡◌, refl, sym, ◌∙◌, ℕ, ◌↔◌, ◌≢◌, Bool, true, false≢true, some, List, [], ◌∷◌, Text, text_eq_iff,
  text_eq_refl, text_cases, arith, inl, inr, contains, map, keep, All, Bool-cases,
}
use un_bien.Prelude.Dict
use un_bien.Prelude.Dict.{Dict}
use un_bien.Envelope.{Envelope, one}
use un_bien.Address.{broadcast_name}
use un_bien.Broker.State.{Broker}
use un_bien.Broker.Routing.{resolve_targets, in_scope}
use un_bien.Broker.Invariant.{WellFormed}

-- The addresses of those in `ps` that `p` holds of.
abbrev chosen : (ℕ → Text) → (ℕ → Bool) → Dict ℕ → List Text
chosen address p ps = map address (keep p (Dict.values ps))

module _ (address : ℕ → Text) (p : ℕ → Bool) where
  abbrev Named : Text × ℕ → Type 0
  Named e = address e.1 ≡ e.0

  chosen-get :
      (ps : Dict ℕ) (t : Text)
      → Dict.Distinct ps
      → All Named ps
      → contains (chosen address p ps) t ≡ true
      → (c : ℕ) × ((Dict.get ps t ≡ some c) × (p c ≡ true))
  unfolding contains Dict.get
  chosen-get [] t d a h = absurd (false≢true h)
  chosen-get ((j, c) ∷ ps) t d a h = elim (Bool-cases (p c)) [
    | inl chose ↦ elim (text_cases j t) [
      | inl e ↦ (c, (ground (arith, text_eq_iff j t), chose))
      | inr e ↦ later (chosen-get ps t d.1 a.1 (ground (arith, text_eq_iff j t, a.0)))
    ]
    | inr left ↦ later (chosen-get ps t d.1 a.1 (ground arith))
  ]
    where
      later :
          (c' : ℕ) × ((Dict.get ps t ≡ some c') × (p c' ≡ true))
          → (c' : ℕ) × ((Dict.get ((j, c) ∷ ps) t ≡ some c') × (p c' ≡ true))
      later (c', (g, q)) = (c', (unfold Dict.get in ground (arith, text_eq_iff j t, d.0), q))

  get-chosen :
      (ps : Dict ℕ) (t : Text) (c : ℕ)
      → All Named ps
      → Dict.get ps t ≡ some c
      → p c ≡ true
      → contains (chosen address p ps) t ≡ true
  unfolding contains Dict.get
  get-chosen [] t c a g h = absurd (ground arith)
  get-chosen ((j, c') ∷ ps) t c a g h = ground (arith, text_eq_iff j t, get-chosen ps t c, a.0)

-- To be in the scope of an envelope is to be another than its sender, in the same folder.
in_scope_iff :
    (b : Broker) (env : Envelope) (sender c : ℕ)
    → Dict.get b.peers env.from ≡ some sender
    → (in_scope b env c ≡ true)
      ↔ (((b.conns c).address ≢ env.from) × ((b.conns c).cwd ≡ (b.conns sender).cwd))
unfolding in_scope
in_scope_iff b env sender c asks = rw (asks) (
    ground (
      arith,
      text_eq_iff (b.conns c).address env.from,
      text_eq_iff (b.conns c).cwd (b.conns sender).cwd,
    ))

resolve_targets-all :
    (b : Broker) (env : Envelope)
    → env.to ≡ one broadcast_name
    → resolve_targets b env ≡ chosen (λ c. (b.conns c).address) (in_scope b env) b.peers
unfolding resolve_targets
resolve_targets-all b env to_all = rw (to_all, text_eq_refl broadcast_name) refl

-- In a well-formed broker, a broadcast from a registered address goes to exactly the other
-- addresses in the registry whose peer has the folder of the sender.
pub broadcast_targets :
    (b : Broker) (env : Envelope) (sender : ℕ) (t : Text)
    → WellFormed b
    → env.to ≡ one broadcast_name
    → Dict.get b.peers env.from ≡ some sender
    → (contains (resolve_targets b env) t ≡ true) ↔ (
        (c : ℕ) × ((Dict.get b.peers t ≡ some c)
          × ((t ≢ env.from) × ((b.conns c).cwd ≡ (b.conns sender).cwd))))
broadcast_targets b env sender t w to_all asks =
    rw (resolve_targets-all b env to_all) (sound, complete)
  where
    address : ℕ → Text
    address c = (b.conns c).address

    named : All (Named address (in_scope b env)) b.peers
    named =
        Dict.All-of_get (Named address (in_scope b env)) b.peers w.distinct
          (λ a c h. (w.owned a c h).here)

    Reached : ℕ → Type 0
    Reached c =
        (Dict.get b.peers t ≡ some c) × ((t ≢ env.from) × ((b.conns c).cwd ≡ (b.conns sender).cwd))

    sound : contains (chosen address (in_scope b env) b.peers) t ≡ true → (c : ℕ) × Reached c
    sound h =
        let (c, g) = chosen-get address (in_scope b env) b.peers t w.distinct named h in
        let scope = (in_scope_iff b env sender c asks).0 g.1 in
        (c, (g.0, (λ e. scope.0 ((w.owned t c g.0).here ∙ e), scope.1)))

    complete : (c : ℕ) × Reached c → contains (chosen address (in_scope b env) b.peers) t ≡ true
    complete (c, (g, (other, near))) =
        get-chosen address (in_scope b env) b.peers t c named g
          ((in_scope_iff b env sender c asks).1 (λ e. other (sym (w.owned t c g).here ∙ e), near))
