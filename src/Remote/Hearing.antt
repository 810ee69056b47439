-- ===== src/Remote/Hearing.antt =====
-- What comes in is kept under the key of the sibling that it came from.
use un_bien.Prelude.{
  ◌≡◌, Bool, true, false, Option, some, Text, text_eq, codes, if_elim, option_else, option_elim,
}
use un_bien.Prelude.Dict
use un_bien.Prelude.Dict.{Dict}
use un_bien.Json.{Value, member, as_text, has_type}
use un_bien.Envelope.{Envelope, Recipients, Result, one, many, ok, err}
use un_bien.Remote.Prefix.{strip_known_pc_prefix}
use un_bien.Remote.Roster.{local_peers_body, parse_peers_update}
use un_bien.Remote.State.{BrokerRemote, is_active, send_control_envelope, legacy_label_for_pubkey}
use un_bien.Remote.Incoming.{
  handle_incoming, handle_from_pc, handle_from_sibling, handle_local, handle_parsed,
  handle_normalized, handle_addressed, handle_control, take_peers_update, answer_peers_request,
  deliver,
}
use un_bien.Remote.Errors.{propagate_transport_error, relay_name, relay_error_of}
use un_bien.Remote.Keyed.{Sound, has_of_get, set_remote_cache-Sound}

module _ (r : BrokerRemote) (key : Text) (w : Sound r) where
  deliver-Sound :
      (raw : Text) (env : Envelope) (target : Text) → Sound (deliver r key raw env target)
  unfolding deliver
  deliver-Sound raw env target =
      if_elim Sound (option_else env.body false (λ b. has_type b (codes "ack"))) (λ _. w) (λ _. w)

  module _ (known : Dict.has r.routing.sibling_by_pubkey key ≡ true) where
    handle_control-Sound :
        (raw : Text) (env : Envelope) (target : Text) (body : Value)
        → Sound (handle_control r key raw env target body)
    unfolding handle_control take_peers_update answer_peers_request send_control_envelope
    handle_control-Sound raw env target body =
        if_elim Sound (has_type body (codes "peers_update"))
          (λ _.
            option_elim Sound (parse_peers_update body) (λ _. w)
              λ infos _. set_remote_cache-Sound r key infos w known)
          (λ _.
            if_elim Sound (has_type body (codes "peers_request"))
              (λ _. option_elim Sound (local_peers_body r.broker) (λ _. w) (λ _ _. w))
              (λ _. deliver-Sound raw env target))

    handle_addressed-Sound :
        (raw : Text) (is_control : Bool) (env : Envelope) (to : Recipients)
        → Sound (handle_addressed r key raw is_control env to)
    unfolding handle_addressed
    handle_addressed-Sound raw is_control env (many ts) = w
    handle_addressed-Sound raw is_control env (one target) =
        option_elim Sound env.body (λ _. deliver-Sound raw env target)
          λ body _.
            if_elim Sound is_control (λ _. handle_control-Sound raw env target body)
              (λ _. deliver-Sound raw env target)

    handle_parsed-Sound :
        (raw : Text) (is_control : Bool) (p : Result Envelope)
        → Sound (handle_parsed r key raw is_control p)
    unfolding handle_parsed handle_normalized
    handle_parsed-Sound raw is_control (err e) = w
    handle_parsed-Sound raw is_control (ok env) = handle_addressed-Sound raw is_control env env.to

    handle_from_sibling-Sound :
        (alias : Text) (env : Value) → Sound (handle_from_sibling r key alias env)
    unfolding handle_from_sibling handle_local
    handle_from_sibling-Sound alias env =
        option_elim Sound (as_text (member env (codes "to"))) (λ _. w)
          λ to _.
            option_elim Sound (as_text (member env (codes "from"))) (λ _. w)
              λ from _.
                option_elim Sound
                  (strip_known_pc_prefix (some from) (legacy_label_for_pubkey r key)) (λ _. w)
                  λ sender _.
                    option_elim Sound
                      (strip_known_pc_prefix (some to) (some r.routing.self.legacy_pc_label))
                      (λ _. w) λ target _. handle_parsed-Sound from _ _

propagate_transport_error-Sound :
    (r : BrokerRemote) (env : Value) → Sound r → Sound (propagate_transport_error r env)
unfolding propagate_transport_error
propagate_transport_error-Sound r env w =
    option_elim Sound (relay_error_of r env) (λ _. w) (λ _ _. w)

pub handle_incoming-Sound :
    (canonical : Text → Option Text) (r : BrokerRemote) (env : Value) (from_pc : Text)
    → Sound r
    → Sound (handle_incoming canonical r env from_pc)
unfolding handle_incoming handle_from_pc
handle_incoming-Sound canonical r env from_pc w =
    if_elim Sound (is_active r.lifecycle)
      (λ _.
        if_elim Sound (text_eq from_pc relay_name) (λ _. propagate_transport_error-Sound r env w)
          (λ _.
            option_elim Sound (canonical from_pc) (λ _. w)
              λ key _.
                option_elim Sound (Dict.get r.routing.sibling_by_pubkey key) (λ _. w)
                  λ alias h.
                    handle_from_sibling-Sound r key w
                      (has_of_get r.routing.sibling_by_pubkey key alias h) alias env))
      (λ _. w)
