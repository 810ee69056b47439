-- ===== src/Remote/Provenance.antt =====
-- Whose name stands on an envelope that comes in from the relay.
use un_bien.Prelude.{
  ◌≡◌, refl, ◌∙◌, subst, ◌⊎◌, inl, inr, Bool, false, ◌&&◌, not, Option, none, some, Text, text_eq,
  text_eq_iff, eq_of_text_eq, arith, if_elim, option_else, option_elim, codes,
}
use un_bien.Prelude.Dict
use un_bien.Json.{
  Value, Fields, obj, str, end, field, member, as_text, has_type, get_field, set_field, with_member,
}
use un_bien.Envelope.{
  Envelope, Recipients, Result, one, many, ok, err, is_uuid, TransportErrorReason,
  as_transport_error_body,
}
use un_bien.Envelope.RoundTrip.{parse-SameSender}
use un_bien.Address.{broker_name, broadcast_name}
use un_bien.Broker.Inject.{inject_from_remote}
use un_bien.Remote.Prefix.{with_prefix, strip_known_pc_prefix}
use un_bien.Remote.Roster.{local_peers_body, parse_peers_update}
use un_bien.Remote.State.{BrokerRemote, is_active, send_control_envelope, legacy_label_for_pubkey}
use un_bien.Remote.Cache.{set_remote_cache, clear_pending_fills}
use un_bien.Remote.Incoming.{
  handle_incoming, handle_from_pc, handle_from_sibling, handle_local, handle_parsed,
  handle_normalized, handle_addressed, handle_control, take_peers_update, answer_peers_request,
  deliver, with_addresses,
}
use un_bien.Remote.Errors.{
  propagate_transport_error, relay_name, transport_error_envelope, transport_error_body,
  relay_error, relay_error_of, normalized_relay_id,
}

-- The envelope is signed with the alias of the sibling whose key the relay has verified, or is an
-- error of the relay's own, signed as the broker.
pub data Vouched (canonical : Text → Option Text) (r : BrokerRemote) (from_pc : Text)
    (env : Envelope) : Type 0 where
  by_sibling :
      (key alias sender : Text)
      → canonical from_pc ≡ some key
      → Dict.get r.routing.sibling_by_pubkey key ≡ some alias
      → env.from ≡ with_prefix alias sender
      → Vouched canonical r from_pc env
  by_relay :
      (reason : TransportErrorReason)
      → from_pc ≡ relay_name
      → env.from ≡ broker_name
      → env.body ≡ some (transport_error_body reason)
      → Vouched canonical r from_pc env

get-set_field : (fs : Fields) (k : Text) (v : Value) → get_field (set_field fs k v) k ≡ some v
unfolding get_field set_field
get-set_field end k v = ground (arith, text_eq_iff k k)
get-set_field (field j w fs) k v = ground (arith, get-set_field fs k v)

get-set_other_field :
    (fs : Fields) (k j : Text) (v : Value)
    → text_eq k j ≡ false
    → get_field (set_field fs k v) j ≡ get_field fs j
unfolding get_field set_field
get-set_other_field end k j v h = ground arith
get-set_other_field (field i w fs) k j v h =
    ground
      (arith, get-set_other_field fs k j v h, text_eq_iff i k, text_eq_iff i j, text_eq_iff k j)

from-with_addresses :
    (env : Value) (from to : Text)
    → member (with_addresses env from to) (codes "from") ≡ some (str from)
unfolding member with_member get_field set_field text_eq
from-with_addresses (obj fs) from to =
    get-set_other_field (set_field fs (codes "from") (str from)) (codes "to") (codes "from")
      (str to) refl
    ∙ get-set_field fs (codes "from") (str from)
from-with_addresses _ from to = refl

-- The connections are as before, or as the broker leaves them that takes in an envelope which is
-- vouched for.
abbrev pub Injects : (Text → Option Text) → BrokerRemote → Text → BrokerRemote → Type 0
Injects canonical r from_pc r' =
    (r'.broker.conns ≡ r.broker.conns)
    ⊎ ((env : Envelope) × (Vouched canonical r from_pc env
          × (r'.broker.conns ≡ (inject_from_remote r.broker env).0.conns)))

module _ (canonical : Text → Option Text) (r : BrokerRemote) (from_pc key : Text) (env : Envelope)
    (vouched : Vouched canonical r from_pc env) where
  deliver-Injects : (raw target : Text) → Injects canonical r from_pc (deliver r key raw env target)
  unfolding deliver
  deliver-Injects raw target =
      if_elim (Injects canonical r from_pc)
        (option_else env.body false (λ b. has_type b (codes "ack")))
        (λ _. inr (env, (vouched, refl))) (λ _. inr (env, (vouched, refl)))

  handle_control-Injects :
      (raw target : Text) (body : Value)
      → Injects canonical r from_pc (handle_control r key raw env target body)
  unfolding handle_control take_peers_update answer_peers_request send_control_envelope
      set_remote_cache clear_pending_fills
  handle_control-Injects raw target body =
      if_elim (Injects canonical r from_pc) (has_type body (codes "peers_update"))
        (λ _.
          option_elim (Injects canonical r from_pc) (parse_peers_update body) (λ _. inl refl)
            λ infos _.
              option_elim (Injects canonical r from_pc) (Dict.get r.pending_fills key)
                (λ _. inl refl) (λ _ _. inl refl))
        (λ _.
          if_elim (Injects canonical r from_pc) (has_type body (codes "peers_request"))
            (λ _.
              option_elim (Injects canonical r from_pc) (local_peers_body r.broker) (λ _. inl refl)
                (λ _ _. inl refl))
            (λ _. deliver-Injects raw target))

  handle_addressed-Injects :
      (raw : Text) (is_control : Bool) (to : Recipients)
      → Injects canonical r from_pc (handle_addressed r key raw is_control env to)
  unfolding handle_addressed
  handle_addressed-Injects raw is_control (many ts) = inl refl
  handle_addressed-Injects raw is_control (one target) =
      option_elim (Injects canonical r from_pc) env.body (λ _. deliver-Injects raw target)
        λ body _.
          if_elim (Injects canonical r from_pc) is_control
            (λ _. handle_control-Injects raw target body) (λ _. deliver-Injects raw target)

module _ (canonical : Text → Option Text) (r : BrokerRemote) (from_pc key alias : Text)
    (known : canonical from_pc ≡ some key)
    (named : Dict.get r.routing.sibling_by_pubkey key ≡ some alias) where
  handle_parsed-Injects :
      (raw sender : Text) (is_control : Bool) (p : Result Envelope)
      → ((e : Envelope) → p ≡ ok e → e.from ≡ with_prefix alias sender)
      → Injects canonical r from_pc (handle_parsed r key raw is_control p)
  unfolding handle_parsed handle_normalized
  handle_parsed-Injects raw sender is_control (err e) signed = inl refl
  handle_parsed-Injects raw sender is_control (ok e) signed =
      handle_addressed-Injects canonical r from_pc key e
        (by_sibling key alias sender known named (signed e refl)) raw is_control e.to

  handle_local-Injects :
      (raw : Text) (env : Value) (sender target : Text)
      → Injects canonical r from_pc (handle_local r key alias raw env sender target)
  unfolding handle_local as_text
  handle_local-Injects raw env sender target = handle_parsed-Injects raw sender _ _ λ e h.
      sender_of e (
        subst (λ v. as_text v ≡ some e.from)
          (from-with_addresses env (with_prefix alias sender) target)
          (parse-SameSender (with_addresses env (with_prefix alias sender) target) e h))
    where
      sender_of :
          (e : Envelope)
          → some (with_prefix alias sender) ≡ some e.from
          → e.from ≡ with_prefix alias sender
      sender_of e h = cc

  handle_from_sibling-Injects :
      (env : Value) → Injects canonical r from_pc (handle_from_sibling r key alias env)
  unfolding handle_from_sibling
  handle_from_sibling-Injects env =
      option_elim (Injects canonical r from_pc) (as_text (member env (codes "to"))) (λ _. inl refl)
        λ to _.
          option_elim (Injects canonical r from_pc) (as_text (member env (codes "from")))
            (λ _. inl refl)
            λ from _.
              option_elim (Injects canonical r from_pc)
                (strip_known_pc_prefix (some from) (legacy_label_for_pubkey r key)) (λ _. inl refl)
                λ sender _.
                  option_elim (Injects canonical r from_pc)
                    (strip_known_pc_prefix (some to) (some r.routing.self.legacy_pc_label))
                    (λ _. inl refl) λ target _. handle_local-Injects from env sender target

abbrev IsRelayError : Envelope → Type 0
IsRelayError e =
    (e.from ≡ broker_name)
    × ((why : TransportErrorReason) × (e.body ≡ some (transport_error_body why)))

-- What holds of the value, if there is one.
abbrev pub IfSome : (Envelope → Type 0) → Option Envelope → Type 0
IfSome P none = Unit
IfSome P (some e) = P e

transport_error_envelope-IsRelayError :
    (from id re target : Option Text) (reason : Option TransportErrorReason)
    → IfSome IsRelayError (transport_error_envelope from id re target reason)
unfolding transport_error_envelope
transport_error_envelope-IsRelayError from id re target reason =
    option_elim (IfSome IsRelayError) from (λ _. tt)
      λ f _.
        option_elim (IfSome IsRelayError) id (λ _. tt)
          λ i _.
            option_elim (IfSome IsRelayError) re (λ _. tt)
              λ q _.
                option_elim (IfSome IsRelayError) target (λ _. tt)
                  λ t _.
                    option_elim (IfSome IsRelayError) reason (λ _. tt)
                      λ why _.
                        if_elim (IfSome IsRelayError)
                          (text_eq f relay_name && is_uuid q && not (text_eq t broadcast_name))
                          {x = some (relay_error i q t why)} (λ _. (refl, (why, refl))) (λ _. tt)

relay_error_of-IsRelayError :
    (r : BrokerRemote) (env : Value) → IfSome IsRelayError (relay_error_of r env)
unfolding relay_error_of
relay_error_of-IsRelayError r env =
    transport_error_envelope-IsRelayError (as_text (member env (codes "from")))
      (option_else (as_text (member env (codes "id"))) none normalized_relay_id)
      (as_text (member env (codes "re")))
      (strip_known_pc_prefix (as_text (member env (codes "to")))
        (some r.routing.self.legacy_pc_label))
      (option_else (member env (codes "body")) none as_transport_error_body)

propagate-Injects :
    (canonical : Text → Option Text) (r : BrokerRemote) (env : Value) (from_pc : Text)
    → from_pc ≡ relay_name
    → Injects canonical r from_pc (propagate_transport_error r env)
unfolding propagate_transport_error
propagate-Injects canonical r env from_pc relay =
    option_elim (Injects canonical r from_pc) (relay_error_of r env) (λ _. inl refl)
      λ e h.
        let (signed, (why, body)) =
          subst (IfSome IsRelayError) h (relay_error_of-IsRelayError r env) in
        inr (e, (by_relay why relay signed body, refl))

-- Whatever comes in from the relay, with whatever fields, the connections of the broker are left as they
-- were, or as the broker leaves them that takes in an envelope of which one of two things holds: its
-- sender stands behind the alias of the sibling whose key the relay has verified, so that no machine speaks
-- in the name of another; or the frame is the relay's own, and the envelope is a transport error of the
-- broker's.
pub handle_incoming-Injects :
    (canonical : Text → Option Text) (r : BrokerRemote) (env : Value) (from_pc : Text)
    → Injects canonical r from_pc (handle_incoming canonical r env from_pc)
unfolding handle_incoming handle_from_pc
handle_incoming-Injects canonical r env from_pc =
    if_elim (Injects canonical r from_pc) (is_active r.lifecycle)
      (λ _.
        if_elim (Injects canonical r from_pc) (text_eq from_pc relay_name)
          (λ relay.
            propagate-Injects canonical r env from_pc (eq_of_text_eq from_pc relay_name relay))
          (λ _.
            option_elim (Injects canonical r from_pc) (canonical from_pc) (λ _. inl refl)
              λ key known.
                option_elim (Injects canonical r from_pc) (Dict.get r.routing.sibling_by_pubkey key)
                  (λ _. inl refl)
                  λ alias named.
                    handle_from_sibling-Injects canonical r from_pc key alias known named env))
      (λ _. inl refl)
