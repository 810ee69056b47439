-- ===== src/Remote/Arriving.antt =====
-- What a machine makes of a frame that another one's peer caused.
use un_bien.Prelude.{
  ◌≡◌, refl, sym, ◌∙◌, ap, subst, true, false, Option, some, [], ◌∷◌, Text, text_eq, if_taken,
  if_refused, option_taken,
}
use un_bien.Prelude.Dict
use un_bien.Json.{member, as_text, get_field, set_field, with_member}
use un_bien.Envelope.{Envelope, one, parse, serialize, json_of_to, non_empty}
use un_bien.Envelope.RoundTrip.{IsValid, parse-serialize}
use un_bien.Remote.Prefix.{with_prefix, strip_known_pc_prefix}
use un_bien.Remote.State.{BrokerRemote, is_active, legacy_label_for_pubkey}
use un_bien.Remote.Outbound.{rewritten}
use un_bien.Remote.Incoming.{
  handle_incoming, handle_from_pc, handle_from_sibling, handle_local, handle_parsed,
  handle_normalized, handle_addressed, is_control_endpoint, with_addresses,
}
use un_bien.Remote.Errors.{relay_name}
use un_bien.Remote.Addresses.{strip_known_pc_prefix-with_prefix}
use un_bien.Remote.Handing.{Knows, outgoing, arriving}

readdressed :
    (env : Envelope) (from to : Text)
    → with_addresses (serialize env) from to ≡ serialize (record env { from = from; to = one to })
unfolding serialize with_member set_field text_eq json_of_to
readdressed env from to = refl

non_empty-with_prefix : (label name : Text) → non_empty (with_prefix label name) ≡ true
non_empty-with_prefix [] name = refl
non_empty-with_prefix (c ∷ label) name = refl

pub arriving-IsValid :
    (alias peer : Text) (env : Envelope)
    → IsValid env
    → non_empty peer ≡ true
    → IsValid (arriving alias peer env)
arriving-IsValid alias peer env valid full = record {
  from = non_empty-with_prefix alias env.from;
  to = full;
  id = valid.id;
  re = valid.re;
  body = valid.body;
}

-- The peer's envelope, as `b` is about to handle it.
abbrev pub Handles :
    BrokerRemote → Text → BrokerRemote → Text → Text → Envelope → BrokerRemote → Type 0
Handles b key a alias peer env r =
    r
    ≡ handle_addressed b key (with_prefix a.routing.self.legacy_pc_label env.from)
        (is_control_endpoint env.from peer) (arriving alias peer env) (one peer)

handle_parsed-arriving :
    (b a : BrokerRemote) (alias key peer : Text) (env : Envelope)
    → IsValid env
    → non_empty peer ≡ true
    → Handles b key a alias peer env (
        handle_parsed b key
          (with_prefix a.routing.self.legacy_pc_label env.from)
          (is_control_endpoint env.from peer)
          (parse (some (with_addresses (serialize env) (with_prefix alias env.from) peer))))
unfolding handle_parsed handle_normalized
handle_parsed-arriving b a alias key peer env valid full =
    ap
      (handle_parsed b key (with_prefix a.routing.self.legacy_pc_label env.from)
        (is_control_endpoint env.from peer))
      (ap (λ v. parse (some v)) (readdressed env (with_prefix alias env.from) peer)
        ∙ parse-serialize (arriving alias peer env) (arriving-IsValid alias peer env valid full))

-- The frame is that of the envelope, but for the addresses.
readdressed_frame :
    (a b : BrokerRemote) (peer : Text) (env : Envelope) (from to : Text)
    → with_addresses (serialize (rewritten a b.routing.self.legacy_pc_label peer env)) from to
      ≡ with_addresses (serialize env) from to
unfolding serialize with_member set_field text_eq json_of_to rewritten
readdressed_frame a b peer env from to = refl

handle_from_sibling-arriving :
    (a b : BrokerRemote) (alias key : Text)
    → Knows b a alias key
    → (peer : Text) (env : Envelope) → IsValid env
    → non_empty peer ≡ true
    → Handles b key a alias peer env (
        handle_from_sibling b key alias
          (serialize (rewritten a b.routing.self.legacy_pc_label peer env)))
unfolding handle_from_sibling handle_local serialize member get_field text_eq as_text json_of_to
    rewritten
handle_from_sibling-arriving a b alias key knows peer env valid full =
    option_taken Is (strip_known_pc_prefix (some sent_from) (legacy_label_for_pubkey b key)) _ _
      env.from
      (ap (strip_known_pc_prefix (some sent_from)) knows.label
        ∙ strip_known_pc_prefix-with_prefix a.routing.self.legacy_pc_label env.from valid.from)
      (option_taken Is
        (strip_known_pc_prefix (some (with_prefix b.routing.self.legacy_pc_label peer))
          (some b.routing.self.legacy_pc_label))
        _ _ peer (strip_known_pc_prefix-with_prefix b.routing.self.legacy_pc_label peer full)
        (subst
          (λ v.
            Is (handle_parsed b key sent_from (is_control_endpoint env.from peer) (parse (some v))))
          (sym (readdressed_frame a b peer env (with_prefix alias env.from) peer))
          (handle_parsed-arriving b a alias key peer env valid full)))
  where
    Is : BrokerRemote → Type 0
    Is = Handles b key a alias peer env

    sent_from : Text
    sent_from = with_prefix a.routing.self.legacy_pc_label env.from

-- What the other machine makes of the frame.
pub handle_incoming-arriving :
    (canonical : Text → Option Text) (a b : BrokerRemote) (alias key : Text)
    → Knows b a alias key
    → (peer key_b from_pc : Text) (env : Envelope) → IsValid env
    → non_empty peer ≡ true
    → canonical from_pc ≡ some key
    → text_eq from_pc relay_name ≡ false
    → handle_incoming canonical b (serialize (outgoing a b key_b peer env).envelope) from_pc
      ≡ handle_addressed b key
          (with_prefix a.routing.self.legacy_pc_label env.from)
          (is_control_endpoint env.from peer)
          (arriving alias peer env)
          (one peer)
unfolding handle_incoming handle_from_pc
handle_incoming-arriving canonical a b alias key knows peer key_b from_pc env valid full keyed
      other =
    if_taken Is (is_active b.lifecycle) _ (ap is_active knows.awake) (
      if_refused Is (text_eq from_pc relay_name) _ other (
        option_taken Is (canonical from_pc) _ _ key keyed (
          option_taken Is (Dict.get b.routing.sibling_by_pubkey key) _ _ alias knows.named
            (handle_from_sibling-arriving a b alias key knows peer env valid full))))
  where
    Is : BrokerRemote → Type 0
    Is = Handles b key a alias peer env
