-- ===== src/Broker/Steps.antt =====
-- Everything that happens to a broker, as a step relation, and what is true of every broker that
-- can come about.
use un_bien.Prelude.{
  ◌≡◌, refl, ℕ, ◌+◌, ◌<◌, ◌≢◌, Bool, false, Option, none, some, List, [], ◌∷◌, Text, number_cases,
  arith, if◌then◌else◌, inl, inr, ◌==◌, if_elim, option_elim,
}
use un_bien.Prelude.Dict
use un_bien.Json.{Value}
use un_bien.Envelope.{Envelope, Result, ok, err, parse, serialize, Recipients, one, many}
use un_bien.Broker.State.{
  Broker, RemoteRouter, update_conn, set_remote_router, clear_remote_router, write, forward,
}
use un_bien.Broker.Registry.{on_close, close_all, orphan, handle_connection, start, fresh_conn}
use un_bien.Broker.Routing.{handle_line, handle_lines}
use un_bien.Broker.Inject.{
  inject_from_remote, inject_to, inject_by_recipients, inject_parsed, InjectStatus, is_local_name,
}
use un_bien.Broker.Quiet.{Quiet, SamePeer-refl, Quiet-refl, Quiet-trans, write-Quiet, audit-Quiet}
use un_bien.Broker.Invariant.{WellFormed, Quiet-WellFormed}
use un_bien.Broker.Fading.{
  Fades, Fades-WellFormed, destroy_socket-Fades, Serves, on_close-WellFormed, close_all-WellFormed,
  orphan-WellFormed,
}
use un_bien.Broker.Serving.{handle_line-Serves}

-- The socket's write starts or stops to throw, as its peer comes and goes.
pub set_refuses : Broker → ℕ → Bool → Broker
unfolding update_conn
set_refuses b c refuses = update_conn b c (λ p. record p { refuses = refuses })

-- A chunk of lines comes from a socket that is open when the chunk arrives.
pub data Step (b : Broker) : Broker → Type 0 where
  connects : Step b (handle_connection b)
  receives :
      (c : ℕ) (lines : List (Option Value))
      → c < b.accepted
      → (b.conns c).destroyed ≡ false
      → Step b (handle_lines b c lines)
  closes : (c : ℕ) → Step b (on_close b c)
  injects : (env : Envelope) → Step b (inject_from_remote b env).0
  attaches : (router : Option RemoteRouter) → Step b (set_remote_router b router)
  detaches : (expected : ℕ) → Step b (clear_remote_router b expected)
  refuses : (c : ℕ) (refuses : Bool) → Step b (set_refuses b c refuses)
  shuts : Step b (close_all b)
  orphans : Step b (orphan b)

pub data Reach (b : Broker) : Broker → Type 0 where
  here : Reach b b
  next : {b' b'' : Broker} → Reach b b' → Step b' b'' → Reach b b''

handle_lines-Serves :
    (c : ℕ) (b : Broker) (lines : List (Option Value))
    → Serves c b
    → Serves c (handle_lines b c lines)
unfolding handle_lines
handle_lines-Serves c b [] s = s
handle_lines-Serves c b (line ∷ rest) s =
    handle_lines-Serves c (handle_line b c line) rest (handle_line-Serves c b line s)

abbrev Untouched : Broker → Broker × InjectStatus → Type 0
Untouched b r = Quiet b r.0

inject_to-Quiet : (b : Broker) (env : Envelope) (to : Text) → Quiet b (inject_to b env to).0
unfolding inject_to
inject_to-Quiet b env to =
    option_elim (Untouched b) (Dict.get b.peers to) (λ _. Quiet-refl b)
      λ c _.
        option_elim (Untouched b) (write b c (forward env)) (λ _. Quiet-refl b)
          λ b' e. Quiet-trans (write-Quiet b c (forward env) e) (audit-Quiet b' env _ _ _)

inject_by_recipients-Quiet :
    (b : Broker) (env : Envelope) (to : Recipients) → Quiet b (inject_by_recipients b env to).0
unfolding inject_by_recipients
inject_by_recipients-Quiet b env (many ts) = Quiet-refl b
inject_by_recipients-Quiet b env (one to) =
    if_elim (Untouched b) (is_local_name to) (λ _. inject_to-Quiet b env to) (λ _. Quiet-refl b)

inject_parsed-Quiet : (b : Broker) (r : Result Envelope) → Quiet b (inject_parsed b r).0
unfolding inject_parsed
inject_parsed-Quiet b (err e) = Quiet-refl b
inject_parsed-Quiet b (ok env) = inject_by_recipients-Quiet b env env.to

inject-Quiet : (b : Broker) (env : Envelope) → Quiet b (inject_from_remote b env).0
unfolding inject_from_remote
inject-Quiet b env = inject_parsed-Quiet b (parse (some (serialize env)))

handle_connection-WellFormed : (b : Broker) → WellFormed b → WellFormed (handle_connection b)
unfolding handle_connection update_conn
handle_connection-WellFormed b w =
    if_elim WellFormed b.orphaned
      (λ _. Fades-WellFormed (destroy_socket-Fades connected b.accepted) sound) (λ _. sound)
  where
    connected : Broker
    connected = record b {
      conns = λ d. if d == b.accepted then fresh_conn else b.conns d;
      accepted = b.accepted + 1;
    }

    sound : WellFormed connected
    sound = record {
      distinct = w.distinct;
      bounded = w.bounded;
      owned = λ a c h.
          let o = w.owned a c h in
          record {
            here = ground (arith, o.here, o.known);
            fits = ground (arith, o.fits, o.known);
            known = omega (arith, o.known);
          };
      listed = λ c h n. elim (number_cases c b.accepted) [
        | inl e ↦ absurd (ground (arith, e))
        | inr e ↦ ground (arith, w.listed c, e)
      ];
    }

pub set_remote_router-WellFormed :
    (b : Broker) (router : Option RemoteRouter)
    → WellFormed b
    → WellFormed (set_remote_router b router)
unfolding set_remote_router
set_remote_router-WellFormed b router w = Quiet-WellFormed quiet w
  where
    quiet : Quiet b (record b { remote_router = router })
    quiet = record {
      peers = refl;
      accepted = refl;
      orphaned = refl;
      conns = λ c. SamePeer-refl (b.conns c);
    }

set_refuses-Fades : (b : Broker) (c : ℕ) (r : Bool) → Fades b (set_refuses b c r)
unfolding set_refuses
set_refuses-Fades b c r = record {
  peers = refl;
  accepted = refl;
  name = λ d. ground arith;
  cwd = λ d. ground arith;
  address = λ d. ground arith;
  opened = λ d h. ground arith;
}

clear_remote_router-WellFormed :
    (b : Broker) (expected : ℕ) → WellFormed b → WellFormed (clear_remote_router b expected)
unfolding clear_remote_router set_remote_router
clear_remote_router-WellFormed b expected w =
    option_elim WellFormed b.remote_router (λ _. w)
      λ r _.
        if_elim WellFormed (r.key == expected) (λ _. set_remote_router-WellFormed b none w) (λ _. w)

-- Every step of the broker keeps its registry well formed.
pub Step-WellFormed : {b b' : Broker} → Step b b' → WellFormed b → WellFormed b'
Step-WellFormed {b} connects w = handle_connection-WellFormed b w
Step-WellFormed {b} (receives c lines known open_now) w =
    (handle_lines-Serves c b lines
      (record { sound = w; known = known; own = w.listed c open_now })).sound
Step-WellFormed {b} (closes c) w = on_close-WellFormed b c w
Step-WellFormed {b} (injects env) w = Quiet-WellFormed (inject-Quiet b env) w
Step-WellFormed {b} (attaches router) w = set_remote_router-WellFormed b router w
Step-WellFormed {b} (detaches expected) w = clear_remote_router-WellFormed b expected w
Step-WellFormed {b} (refuses c r) w = Fades-WellFormed (set_refuses-Fades b c r) w
Step-WellFormed {b} shuts w = close_all-WellFormed b w
Step-WellFormed {b} orphans w = orphan-WellFormed b w

start-WellFormed : (uuids : ℕ → Text) (has_audit : Bool) → WellFormed (start uuids has_audit)
unfolding start
start-WellFormed uuids has_audit = record {
  distinct = tt;
  bounded = omega arith;
  owned = λ a c h. absurd (nowhere a c h);
  listed = λ c h n. cc;
}
  where
    nowhere : (a : Text) (c : ℕ) → Dict.get {V = ℕ} [] a ≢ some c
    nowhere a c h = unfold Dict.get in cc

-- In every broker that can come about: each address in the registry is that of one connection,
-- which has it for its own and is made of its folder and its name, no registered open connection is
-- missing, and there are at most 1024 entries, all within the limits.
pub Reach-WellFormed :
    (uuids : ℕ → Text) (has_audit : Bool) {b : Broker}
    → Reach (start uuids has_audit) b
    → WellFormed b
Reach-WellFormed uuids has_audit here = start-WellFormed uuids has_audit
Reach-WellFormed uuids has_audit (next r step) =
    Step-WellFormed step (Reach-WellFormed uuids has_audit r)
