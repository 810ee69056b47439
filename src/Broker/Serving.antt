-- ===== src/Broker/Serving.antt =====
-- What a line on a socket may do to the registry.
use un_bien.Prelude.{
  ◌≡◌, subst, ℕ, Bool, true, false, Option, none, some, Text, arith, if_elim, option_elim, codes,
}
use un_bien.Prelude.Dict
use un_bien.Prelude.Dict.{Dict}
use un_bien.Json.{Value, member, as_text, has_type}
use un_bien.Envelope.{non_empty}
use un_bien.Broker.State.{Broker, destroy_socket, peer_left, peer_joined, register_ack}
use un_bien.Broker.Naming.{Identity, identity_for_register}
use un_bien.Broker.Registry.{
  register_request, enter, admit, handle_register, move, put_back, renamed, restored, rename_to,
  send_rename_ack, handle_rename,
}
use un_bien.Broker.Routing.{handle_line, handle_registered, answer_probe}
use un_bien.Broker.Identity.{Grants, GrantsIf, identity_for_register-Grants}
use un_bien.Broker.Quiet.{
  Quiet, Quiet-trans, try_write-Quiet, broadcast_system-Quiet, handle_envelope-Quiet,
  answer_probe-Answers, Answers,
}
use un_bien.Broker.Invariant.{WellFormed, Puts, Puts-WellFormed}
use un_bien.Broker.Entering.{enter-Puts}
use un_bien.Broker.Fading.{Serves, Quiet-Serves, Fades-Serves, destroy_socket-Fades}
use un_bien.Broker.Moving.{put_back-Puts, move-Puts}

Puts-Serves :
    (c : ℕ) (b b' : Broker) (address : Text) → WellFormed b → Puts b b' c address → Serves c b'
Puts-Serves c b b' address w p = record {
  sound = Puts-WellFormed b b' c address w p;
  known = omega (arith, p.known, p.accepted);
  own = λ _. rw p.here p.at;
}

destroy_socket-Serves : (c d : ℕ) (b : Broker) → Serves c b → Serves c (destroy_socket b d)
destroy_socket-Serves c d b s = Fades-Serves c (destroy_socket-Fades b d) s

admit-Quiet :
    (b : Broker) (c : ℕ) (cwd : Text) (i : Identity) → Quiet (enter b c cwd i) (admit b c cwd i)
unfolding admit
admit-Quiet b c cwd i =
    Quiet-trans (try_write-Quiet (enter b c cwd i) c (register_ack i.address i.name))
      (broadcast_system-Quiet _ (peer_joined i.address) i.address)

GrantsIf-some :
    (peers : Dict ℕ) (cwd : Text) (takeover : Bool) (o : Option Identity) {i : Identity}
    → GrantsIf peers cwd takeover o
    → o ≡ some i
    → Grants peers cwd takeover i
GrantsIf-some peers cwd takeover o h e = rw (e, GrantsIf) at h

handle_register-Serves :
    (c : ℕ) (b : Broker) (line : Option Value)
    → Serves c b
    → non_empty (b.conns c).name ≡ false
    → Serves c (handle_register b c line)
unfolding handle_register
handle_register-Serves c b line s new =
    option_elim (Serves c) (register_request line) (λ _. destroy_socket-Serves c c b s)
      λ req _.
        option_elim (Serves c) (identity_for_register b.peers req.cwd req.name req.takeover)
          (λ _. destroy_socket-Serves c c b s)
          λ i e. Quiet-Serves c (admit-Quiet b c req.cwd i) (
            Puts-Serves c b (enter b c req.cwd i) i.address s.sound (
              enter-Puts b c req.cwd req.takeover i s.sound
                (GrantsIf-some b.peers req.cwd req.takeover _
                  (identity_for_register-Grants b.peers req.cwd req.takeover req.name) e)
                s.known new))

send_rename_ack-Quiet : (b : Broker) (c : ℕ) → Quiet b (send_rename_ack b c)
unfolding send_rename_ack
send_rename_ack-Quiet b c = try_write-Quiet b c _

renamed-Quiet : (b : Broker) (c : ℕ) (i : Identity) → Quiet (move b c i) (renamed b c i)
unfolding renamed
renamed-Quiet b c i =
    Quiet-trans
      (Quiet-trans (broadcast_system-Quiet (move b c i) (peer_left (b.conns c).address) i.address)
        (broadcast_system-Quiet _ (peer_joined i.address) i.address))
      (try_write-Quiet _ c _)

rename_to-Serves :
    (c : ℕ) (b : Broker) (name : Text)
    → Serves c b
    → non_empty (b.conns c).name ≡ true
    → Serves c (rename_to b c name)
unfolding rename_to
rename_to-Serves c b name s n =
    option_elim (Serves c)
      (identity_for_register (Dict.delete b.peers (b.conns c).address) (b.conns c).cwd name false)
      (λ _. Quiet-Serves c (restored-Quiet b c) (
        Puts-Serves c b (put_back b c) (b.conns c).address s.sound
          (put_back-Puts b c s.sound (s.own n))))
      λ i e. Quiet-Serves c (renamed-Quiet b c i) (
        Puts-Serves c b (move b c i) i.address s.sound (
          move-Puts b c s.sound (s.own n) i (
            GrantsIf-some _ (b.conns c).cwd false _
              (identity_for_register-Grants _ (b.conns c).cwd false name) e)))
  where
    restored-Quiet : (b : Broker) (c : ℕ) → Quiet (put_back b c) (restored b c)
    restored-Quiet b c = unfold restored in send_rename_ack-Quiet (put_back b c) c

handle_rename-Serves :
    (c : ℕ) (b : Broker) (control : Value)
    → Serves c b
    → non_empty (b.conns c).name ≡ true
    → Serves c (handle_rename b c control)
unfolding handle_rename
handle_rename-Serves c b control s n =
    option_elim (Serves c) (as_text (member control (codes "name")))
      (λ _. Quiet-Serves c (send_rename_ack-Quiet b c) s)
      λ name _.
        if_elim (Serves c) (non_empty name) (λ _. rename_to-Serves c b name s n)
          (λ _. Quiet-Serves c (send_rename_ack-Quiet b c) s)

-- Whatever a connection sends, the registry stays well formed.
pub handle_line-Serves :
    (c : ℕ) (b : Broker) (line : Option Value) → Serves c b → Serves c (handle_line b c line)
unfolding handle_line
handle_line-Serves c b line s =
    if_elim (Serves c) (non_empty (b.conns c).name) (registered line) λ new.
      option_elim (Serves c) (answer_probe b c line) (λ _. handle_register-Serves c b line s new)
        λ b' e. Quiet-Serves c (subst (Answers b) e (answer_probe-Answers b c line)) s
  where
    registered :
        (line : Option Value)
        → non_empty (b.conns c).name ≡ true
        → Serves c (handle_registered b c line)
    registered none n =
        unfold handle_registered in Quiet-Serves c (handle_envelope-Quiet b c none) s
    registered (some v) n =
        unfold handle_registered in
        if_elim (Serves c) (has_type v (codes "rename")) (λ _. handle_rename-Serves c b v s n)
          (λ _. Quiet-Serves c (handle_envelope-Quiet b c (some v)) s)
