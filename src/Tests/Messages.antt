-- ===== src/Tests/Messages.antt =====
-- What becomes of messages, on the broker with two peers and in an inbox.
use un_bien.Prelude.{
  ◌≡◌, refl, codes, some, none, text_eq, [], ◌∷◌, ◌++◌, Text, ℕ, true, false, arith, List, ◌≢◌,
}
use un_bien.Prelude.Dict
use un_bien.Json.{str}
use un_bien.Envelope.{Envelope, one, serialize}
use un_bien.Address.{broadcast_name}
use un_bien.Broker.State.{Broker, PeerConn, received, unknown_peer, ack, system, forward}
use un_bien.Broker.Routing.{route_local, handle_envelope}
use un_bien.Broker.Senders.{Adds, IsFrom, handle_envelope-Adds}
use un_bien.Broker.Delivery.{Sent, unicast_received, unicast_unknown}
use un_bien.Inbox.{
  MeshMessage, MeshFilter, empty_inbox, add, list_messages, MeshInbox, notify, fetch, drop_oldest,
}
use un_bien.Inbox.Refinement.{Holds, spec_add, add-Holds}
use un_bien.Inbox.Listing.{Listed, list_messages-Holds}
use un_bien.Inbox.Waiting.{Sound, delivers, Use-Sound, empty_inbox-Sound}

abbrev peer : Text → PeerConn
peer name = record {
  name = name;
  cwd = codes "/w";
  address = codes "/w@" ++ name;
  destroyed = false;
  refuses = false;
  sent = [];
}

abbrev conn_of : ℕ → PeerConn
conn_of ℕ.zero = peer (codes "a")
conn_of (ℕ.suc n) = peer (codes "b")

abbrev pub two : Broker
two = record {
  peers = (codes "/w@a", 0) ∷ (codes "/w@b", 1) ∷ [];
  conns = conn_of;
  accepted = 2;
  orphaned = false;
  remote_router = none;
  has_audit = true;
  audit = [];
  uuids = λ n. codes "0190a0b0-0000-7000-8000-000000000002";
  minted = 0;
}

abbrev hello : Text → Envelope
hello to = record {
  from = codes "/w@a";
  to = one to;
  id = codes "0190a0b0-0000-7000-8000-000000000001";
  re = none;
  body = some (str (codes "hello"));
}

has_first : Dict.get two.peers (codes "/w@a") ≡ some 0
unfolding Dict.get text_eq
has_first = refl

pub has_second : Dict.get two.peers (codes "/w@b") ≡ some 1
unfolding Dict.get text_eq
has_second = refl

has_no_third : Dict.get two.peers (codes "/w@c") ≡ none
unfolding Dict.get text_eq
has_no_third = refl

second_not_all : codes "/w@b" ≢ broadcast_name
second_not_all e = cc

second_not_first : codes "/w@b" ≢ codes "/w@a"
second_not_first e = ground arith

third_not_all : codes "/w@c" ≢ broadcast_name
third_not_all e = cc

third_not_first : codes "/w@c" ≢ codes "/w@a"
third_not_first e = ground arith

abbrev second : ℕ
second = 1

one_not_zero : second ≢ 0
one_not_zero e = omega arith

unicast_received_example :
    Sent two (route_local two (hello (codes "/w@b"))) 1 (forward (hello (codes "/w@b")) ∷ [])
    × Sent two (route_local two (hello (codes "/w@b"))) 0 (
        system
          (codes "/w@a")
          (two.uuids 0)
          (some (hello (codes "/w@b")).id)
          (ack received (codes "/w@b"))
        ∷ [])
unicast_received_example =
    unicast_received two (hello (codes "/w@b")) (codes "/w@b") 1 0 refl second_not_all
      second_not_first has_second has_first one_not_zero refl refl

unicast_unknown_example :
    Sent two (route_local two (hello (codes "/w@c"))) 0 (
      system
        (codes "/w@a")
        (two.uuids 0)
        (some (hello (codes "/w@c")).id)
        (ack unknown_peer (codes "/w@c"))
      ∷ [])
    × (((route_local two (hello (codes "/w@c"))).conns 1).sent ≡ (two.conns 1).sent)
unicast_unknown_example =
    unicast_unknown two (hello (codes "/w@c")) (codes "/w@c") 0 1 refl third_not_all third_not_first
      has_no_third has_first refl one_not_zero

handle_envelope-Adds_example :
    Adds
      (IsFrom (codes "/w@a"))
      two
      (handle_envelope two 0 (some (serialize (hello (codes "/w@b")))))
      1
handle_envelope-Adds_example =
    handle_envelope-Adds two 0 1 (some (serialize (hello (codes "/w@b"))))

abbrev note : MeshMessage
note = record {
  id = codes "m1";
  from = codes "/w@b";
  to = codes "/w@a";
  body = str (codes "done");
  re = none;
  sent_at = 5;
  delivered_at = none;
}

abbrev from_second : MeshFilter
from_second = record { from = some (codes "/w@b"); re = none; since_ms = none }

Use-Sound_example : Sound (add (empty_inbox 2) note) (spec_add 2 [] note)
unfolding empty_inbox
Use-Sound_example = Use-Sound (delivers note) (empty_inbox-Sound 2)

abbrev later_note : MeshMessage
later_note = record note { id = codes "m2" }

abbrev two_notes : List MeshMessage
two_notes = spec_add 2 (spec_add 2 [] note) later_note

abbrev inbox_of_two : MeshInbox
inbox_of_two = add (add (empty_inbox 2) note) later_note

two_notes-Holds : Holds inbox_of_two two_notes
unfolding empty_inbox add Dict.get
two_notes-Holds =
    add-Holds (add (empty_inbox 2) note) (spec_add 2 [] note) later_note
      (add-Holds (empty_inbox 2) [] note (empty_inbox-Sound 2).holds)

-- Both are from the second peer, and the limit takes the later.
list_messages-Holds_example :
    (taken : List MeshMessage) × (list_messages inbox_of_two from_second (some 1) ≡ some taken)
    × Listed from_second (some 1) two_notes taken
list_messages-Holds_example =
    list_messages-Holds inbox_of_two two_notes from_second (some 1) two_notes-Holds

list_messages_run : list_messages inbox_of_two from_second (some 1) ≡ some (later_note ∷ [])
unfolding list_messages add notify fetch drop_oldest empty_inbox Dict.get Dict.set Dict.delete
    text_eq
list_messages_run = refl

-- The second message takes the place of the first in an inbox for one.
add-Holds_example :
    Holds (add (add (empty_inbox 1) note) later_note) (spec_add 1 (spec_add 1 [] note) later_note)
unfolding empty_inbox add Dict.get
add-Holds_example =
    add-Holds (add (empty_inbox 1) note) (spec_add 1 [] note) later_note
      (add-Holds (empty_inbox 1) [] note (empty_inbox-Sound 1).holds)
