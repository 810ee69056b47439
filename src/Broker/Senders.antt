-- ===== src/Broker/Senders.antt =====
-- Who an envelope is from: the broker forwards under the registered address and no other.
use un_bien.Prelude.{
  ◌≡◌, refl, sym, ap, ◌∙◌, subst, ℕ, ◌+◌, Bool, true, false, Option, none, some, List, [], ◌∷◌,
  ◌++◌, append-nil, append_assoc, Text, text_eq, arith, inl, inr, All, number_cases, if_elim,
  option_elim, codes,
}
use un_bien.Prelude.Dict
use un_bien.Prelude.Dict.{Dict}
use un_bien.Json.{Value, has_type}
use un_bien.Envelope.{Envelope, Result, ok, err, parse}
use un_bien.Broker.State.{
  AckStatus, received, unknown_peer, SystemBody, ack, Frame, register_ack, rename_ack, system,
  forward, Via, Broker, update_conn, write, try_write, write_system, broadcast_to, broadcast_system,
}
use un_bien.Broker.Routing.{
  send_ack_to_sender, Progress, settle, deliver_one, deliver_all, append_audit, route_local,
  resolve_targets, claimed_remotely, handle_broker_message, route, is_to_broker, handle_envelope,
}

-- What the frame claims of its sender, if it is a peer's envelope.
abbrev pub IsFrom : Text → Frame → Type 0
IsFrom a (forward env) = env.from ≡ a
IsFrom a (register_ack x y) = Unit
IsFrom a (rename_ack x y) = Unit
IsFrom a (system to id re body) = Unit

-- Every socket was given what it was given before, and then frames of the kind `P`.
pub record Adds (P : Frame → Type 0) (b b' : Broker) (d : ℕ) : Type 0 where
  pub more : List Frame
  pub sent : (b'.conns d).sent ≡ (b.conns d).sent ++ more
  pub kind : All P more

module _ (P : Frame → Type 0) where
  same-Adds : (b b' : Broker) (d : ℕ) → (b'.conns d).sent ≡ (b.conns d).sent → Adds P b b' d
  same-Adds b b' d e = record { more = []; sent = e ∙ sym (append-nil (b.conns d).sent); kind = tt }

  All-append : (xs ys : List Frame) → All P xs → All P ys → All P (xs ++ ys)
  All-append [] ys h k = k
  All-append (x ∷ xs) ys h k = (h.0, All-append xs ys h.1 k)

  Adds-trans : {a b c : Broker} {d : ℕ} → Adds P a b d → Adds P b c d → Adds P a c d
  Adds-trans {a} {b} {c} {d} h k = record {
    more = h.more ++ k.more;
    sent = k.sent ∙ (ap (λ s. s ++ k.more) h.sent ∙ append_assoc (a.conns d).sent h.more k.more);
    kind = All-append h.more k.more h.kind k.kind;
  }

  sent-Adds :
      (b : Broker) (c : ℕ) (f : Frame) (d : ℕ)
      → P f
      → Adds P b (update_conn b c (λ p. record p { sent = p.sent ++ (f ∷ []) })) d
  unfolding update_conn
  sent-Adds b c f d p = elim (number_cases d c) [
    | inl e ↦ record { more = f ∷ []; sent = ground arith; kind = (p, tt) }
    | inr e ↦ same-Adds _ _ d (ground arith)
  ]

  write-Adds :
      (b : Broker) (c : ℕ) (f : Frame) (d : ℕ) {b' : Broker}
      → P f
      → write b c f ≡ some b'
      → Adds P b b' d
  unfolding write
  write-Adds b c f d {b'} p h =
      let same : update_conn b c (λ p. record p { sent = p.sent ++ (f ∷ []) }) ≡ b' =
        ground arith in
      subst (λ x. Adds P b x d) same (sent-Adds b c f d p)

  try_write-Adds : (b : Broker) (c : ℕ) (f : Frame) (d : ℕ) → P f → Adds P b (try_write b c f) d
  unfolding try_write
  try_write-Adds b c f d p =
      option_elim (λ x. Adds P b x d) (write b c f) (λ _. same-Adds b b d refl)
        (λ b' e. write-Adds b c f d p e)

module _ (a : Text) (d : ℕ) where
  abbrev Honest : Broker → Broker → Type 0
  Honest b b' = Adds (IsFrom a) b b' d

  still : (b : Broker) → Honest b b
  still b = same-Adds (IsFrom a) b b d refl

  write_system-Honest :
      (b : Broker) (c : ℕ) (to : Text) (re : Option Text) (body : SystemBody)
      → Honest b (write_system b c to re body)
  unfolding write_system
  write_system-Honest b c to re body =
      Adds-trans (IsFrom a) (same-Adds (IsFrom a) b (record b { minted = b.minted + 1 }) d refl)
        (try_write-Adds (IsFrom a) _ c _ d tt)

  broadcast_to-Honest :
      (ps : Dict ℕ) (b : Broker) (body : SystemBody) (excluded : Text)
      → Honest b (broadcast_to ps b body excluded)
  unfolding broadcast_to
  broadcast_to-Honest [] b body excluded = still b
  broadcast_to-Honest ((address, c) ∷ rest) b body excluded =
      Adds-trans (IsFrom a)
        (if_elim (Honest b) (text_eq address excluded) (λ _. still b)
          (λ _. write_system-Honest b c address none body))
        (broadcast_to-Honest rest _ body excluded)

  broadcast_system-Honest :
      (b : Broker) (body : SystemBody) (excluded : Text)
      → Honest b (broadcast_system b body excluded)
  unfolding broadcast_system
  broadcast_system-Honest b body excluded = broadcast_to-Honest b.peers b body excluded

  settle-Honest :
      (u : Bool) (p : Progress) (env : Envelope) (status : AckStatus) (target : Text)
      → Honest p.broker (settle u p env status target).broker
  unfolding settle send_ack_to_sender
  settle-Honest false p env status target = still p.broker
  settle-Honest true p env status target =
      option_elim (Honest p.broker) (Dict.get p.broker.peers env.from) (λ _. still p.broker)
        (λ c _. write_system-Honest p.broker c env.from (some env.id) (ack status target))

  deliver_one-Honest :
      (u : Bool) (env : Envelope) (target : Text) (p : Progress)
      → env.from ≡ a
      → Honest p.broker (deliver_one u env target p).broker
  unfolding deliver_one
  deliver_one-Honest u env target p from =
      option_elim (λ (x : Progress). Honest p.broker x.broker) (Dict.get p.broker.peers target)
        (λ _. settle-Honest u p env unknown_peer target)
        λ c _.
          option_elim (λ (x : Progress). Honest p.broker x.broker) (write p.broker c (forward env))
            (λ _. still p.broker)
            λ b w.
              Adds-trans (IsFrom a) (write-Adds (IsFrom a) p.broker c (forward env) d from w)
                (settle-Honest u _ env received target)

  deliver_all-Honest :
      (u : Bool) (env : Envelope) (targets : List Text) (p : Progress)
      → env.from ≡ a
      → Honest p.broker (deliver_all u env targets p).broker
  unfolding deliver_all
  deliver_all-Honest u env [] p from = still p.broker
  deliver_all-Honest u env (target ∷ rest) p from =
      Adds-trans (IsFrom a) (deliver_one-Honest u env target p from)
        (deliver_all-Honest u env rest (deliver_one u env target p) from)

  audit-Honest :
      (b : Broker) (env : Envelope) (delivered : List Text) (status : Option AckStatus) (via : Via)
      → Honest b (append_audit b env delivered status via)
  unfolding append_audit
  audit-Honest b env delivered status via =
      if_elim (Honest b) b.has_audit (λ _. same-Adds (IsFrom a) b _ d refl) (λ _. still b)

  message-Honest : (b : Broker) (env : Envelope) → Honest b (handle_broker_message b env)
  unfolding handle_broker_message
  message-Honest b env =
      option_elim (Honest b) env.body (λ _. still b)
        λ body _.
          if_elim (Honest b) (has_type body (codes "list_peers"))
            (λ _.
              option_elim (Honest b) (Dict.get b.peers env.from)
                (λ _. same-Adds (IsFrom a) b (record b { minted = b.minted + 1 }) d refl)
                (λ c _. write_system-Honest b c env.from (some env.id) _))
            (λ _. still b)

  route-Honest : (b : Broker) (env : Envelope) → env.from ≡ a → Honest b (route b env)
  unfolding route route_local
  route-Honest b env from =
      if_elim (Honest b) (is_to_broker env.to) (λ _. message-Honest b env)
        λ _.
          if_elim (Honest b) (claimed_remotely b env) (λ _. still b)
            λ _.
              Adds-trans (IsFrom a) (deliver_all-Honest _ env (resolve_targets b env) _ from)
                (audit-Honest _ env _ _ _)

-- A registered connection cannot speak for another: whatever envelope its line holds, all that any
-- socket is sent on its account is the broker's own, or comes from the connection's own address.
pub handle_envelope-Adds :
    (b : Broker) (c d : ℕ) (line : Option Value)
    → Adds (IsFrom (b.conns c).address) b (handle_envelope b c line) d
unfolding handle_envelope
handle_envelope-Adds b c d line = go (parse line)
  where
    go :
        (r : Result Envelope)
        → Adds
            (IsFrom (b.conns c).address)
            b
            (elim r [ err e ↦ b | ok env ↦ route b (record env { from = (b.conns c).address }) ])
            d
    go (err e) = still (b.conns c).address d b
    go (ok env) =
        route-Honest (b.conns c).address d b (record env { from = (b.conns c).address }) refl
