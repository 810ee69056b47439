-- ===== src/Broker/Inject.antt =====
-- `injectFromRemote`: an envelope that came from another machine.
use un_bien.Prelude.{Bool, ◌&&◌, not, some, [], ◌∷◌, Text, text_eq, if◌then◌else◌, option_else}
use un_bien.Prelude.Dict
use un_bien.Prelude.Dict.{Dict}
use un_bien.Envelope.{Envelope, Recipients, Result, one, many, ok, err, parse, serialize}
use un_bien.Address.{broker_name, broadcast_name}
use un_bien.Broker.State.{AckStatus, forward, relay, Broker, write}
use un_bien.Broker.Routing.{append_audit}

pub data InjectStatus : Type 0 where
  received denied : InjectStatus

abbrev pub is_local_name : Text → Bool
is_local_name to = not (text_eq to broadcast_name) && not (text_eq to broker_name)

-- `injectFromRemote`, once the envelope has been validated.
unfoldable pub inject_to : Broker → Envelope → Text → Broker × InjectStatus
unfolding append_audit
inject_to b env to =
    option_else (Dict.get b.peers to) (b, InjectStatus.denied)
      λ c.
        option_else (write b c (forward env)) (b, InjectStatus.denied)
          λ b'.
            (append_audit b' env (to ∷ []) (some AckStatus.received) relay, InjectStatus.received)

-- Between machines an envelope has one recipient, who is a peer.
unfoldable pub inject_by_recipients : Broker → Envelope → Recipients → Broker × InjectStatus
unfolding inject_to
inject_by_recipients b env (many ts) = (b, InjectStatus.denied)
inject_by_recipients b env (one to) =
    if is_local_name to then inject_to b env to else (b, InjectStatus.denied)

unfoldable pub inject_parsed : Broker → Result Envelope → Broker × InjectStatus
unfolding inject_by_recipients
inject_parsed b (err e) = (b, InjectStatus.denied)
inject_parsed b (ok validated) = inject_by_recipients b validated validated.to

-- Such callers have not crossed the parser, so the envelope is validated as it would be written.
unfoldable pub inject_from_remote : Broker → Envelope → Broker × InjectStatus
unfolding inject_parsed
inject_from_remote b env = inject_parsed b (parse (some (serialize env)))
