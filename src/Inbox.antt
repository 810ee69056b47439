-- ===== src/Inbox.antt =====
-- The inbox of mesh messages, extension/src/session/mesh_inbox.ts: what was delivered, in order and
-- bounded, and the waits for a message. A promise is a number, and `settled` is the list of what the
-- promises were resolved with; a waiter is in `waiters` exactly as long as its timer runs.
pub mod Refinement
pub mod Listing
pub mod Waiting
use un_bien.Prelude.{
  ℕ, ◌+◌, ◌-◌, Bool, true, false, ◌&&◌, ◌||◌, not, Option, none, some, List, [], ◌∷◌, ◌++◌, Text,
  text_eq, if◌then◌else◌, option_else, ltb, leb, ◌==◌, length, drop, keep, find, any, is_some,
}
use un_bien.Prelude.Dict
use un_bien.Prelude.Dict.{Dict}
use un_bien.Json.{Value}

pub record MeshMessage : Type 0 where
  pub id : Text
  pub from : Text
  pub to : Text
  pub body : Value
  pub re : Option Text
  pub sent_at : ℕ
  pub delivered_at : Option ℕ

pub record MeshFilter : Type 0 where
  pub from : Option Text
  pub re : Option Text
  pub since_ms : Option ℕ

abbrev pub interrupt_grace_ms : ℕ
interrupt_grace_ms = 30000

-- The `re` of a message is the one that is asked for.
abbrev pub is_re : MeshMessage → Text → Bool
is_re m re = option_else m.re false (λ r. text_eq r re)

abbrev pub matches_filter : MeshMessage → MeshFilter → Bool
matches_filter m f =
    option_else f.from true (λ from. text_eq m.from from)
    && (option_else f.re true (is_re m)
        && option_else f.since_ms true (λ since. leb since m.sent_at))

-- The difference `waitStartMs - INTERRUPT_GRACE_MS` may be negative, so the sum is on the other side.
abbrev pub is_interrupt_candidate : MeshMessage → MeshFilter → ℕ → Bool
is_interrupt_candidate m f wait_start_ms =
    not (ltb (m.sent_at + interrupt_grace_ms) wait_start_ms)
    && option_else f.from (not (is_some m.re)) (λ from. text_eq m.from from)

-- `interrupts` is when the wait began, for a wait that may be interrupted.
pub record Waiter : Type 0 where
  pub key : ℕ
  pub filter : MeshFilter
  pub interrupts : Option ℕ

pub record MeshInbox : Type 0 where
  pub messages : Dict MeshMessage
  pub order : List Text
  pub waiters : List Waiter
  pub cap : ℕ
  pub issued : ℕ
  pub settled : List (ℕ × Option MeshMessage)

unfoldable pub empty_inbox : ℕ → MeshInbox
empty_inbox cap = record {
  messages = [];
  order = [];
  waiters = [];
  cap = cap;
  issued = 0;
  settled = [];
}

-- `w.match(msg) || w.interrupts?.(msg)`
abbrev pub takes : Waiter → MeshMessage → Bool
takes w m =
    matches_filter m w.filter || option_else w.interrupts false (is_interrupt_candidate m w.filter)

-- `while (this.order.length > this.cap)`
unfoldable pub drop_oldest : ℕ → Dict MeshMessage → List Text → Dict MeshMessage × List Text
drop_oldest cap messages [] = (messages, [])
drop_oldest cap messages (id ∷ rest) =
    let shorter = drop_oldest cap (Dict.delete messages id) rest in
    if ltb cap (length (id ∷ rest)) then shorter else (messages, id ∷ rest)

-- The waiters, in order, that the message resolves.
abbrev pub resolutions : MeshMessage → List Waiter → List (ℕ × Option MeshMessage)
resolutions m [] = []
resolutions m (w ∷ ws) = if takes w m then (w.key, some m) ∷ resolutions m ws else resolutions m ws

unfoldable pub notify : MeshInbox → MeshMessage → MeshInbox
notify inbox m = record inbox {
  waiters = keep (λ w. not (takes w m)) inbox.waiters;
  settled = inbox.settled ++ resolutions m inbox.waiters;
}

unfoldable pub add : MeshInbox → MeshMessage → MeshInbox
unfolding notify
add inbox m =
    if Dict.has inbox.messages m.id
    then inbox
    else let kept =
        drop_oldest inbox.cap (Dict.set inbox.messages m.id m) (inbox.order ++ (m.id ∷ [])) in
      notify (record inbox { messages = kept.0; order = kept.1 }) m

abbrev get_message : MeshInbox → Text → Option MeshMessage
get_message inbox id = Dict.get inbox.messages id

-- `order.map((id) => messages.get(id)!)`: nothing, where an id has no message.
unfoldable pub fetch : Dict MeshMessage → List Text → Option (List MeshMessage)
fetch messages [] = some []
fetch messages (id ∷ rest) =
    option_else (Dict.get messages id) none
      λ m. option_else (fetch messages rest) none λ ms. some (m ∷ ms)

-- The three filters, one after the other, and `slice(-limit)`.
abbrev pub narrow : MeshFilter → List MeshMessage → List MeshMessage
narrow f ms =
    let from = option_else f.from ms (λ a. keep (λ m. text_eq m.from a) ms) in
    let re = option_else f.re from (λ r. keep (λ m. is_re m r) from) in
    option_else f.since_ms re (λ since. keep (λ m. leb since m.sent_at) re)

abbrev pub newest : Option ℕ → List MeshMessage → List MeshMessage
newest limit ms = option_else limit ms λ n. if ltb 0 n then drop (length ms - n) ms else ms

unfoldable pub list_messages : MeshInbox → MeshFilter → Option ℕ → Option (List MeshMessage)
list_messages inbox f limit =
    option_else (fetch inbox.messages inbox.order) none λ ms. some (newest limit (narrow f ms))

-- What `wait` returns: a rejected promise, a resolved one, or one that waits.
pub data Waited : Type 0 where
  rejected : Waited
  resolved : MeshMessage → Waited
  pending : ℕ → Waited

-- A wait that starts at `now` with the abort signal as `aborted` says.
unfoldable pub start_wait : MeshInbox → MeshFilter → Option ℕ → MeshInbox × Waited
start_wait inbox f interrupts = (
  record inbox {
    waiters =
        inbox.waiters ++ (record { key = inbox.issued; filter = f; interrupts = interrupts } ∷ []);
    issued = inbox.issued + 1;
  },
  pending inbox.issued,
)

unfoldable pub wait_among :
    MeshInbox → MeshFilter → Option ℕ → List MeshMessage → MeshInbox × Waited
unfolding start_wait
wait_among inbox f interrupts ms =
    option_else (find (λ m. matches_filter m f) ms)
      (option_else interrupts (start_wait inbox f none) λ now.
        option_else (find (λ m. is_interrupt_candidate m f now) ms) (start_wait inbox f (some now))
          λ m. (inbox, resolved m))
      λ m. (inbox, resolved m)

-- The loop over `order` would throw on an id with no message; `none` is that.
unfoldable pub wait : MeshInbox → MeshFilter → ℕ → Bool → Bool → Option (MeshInbox × Waited)
unfolding wait_among
wait inbox f now aborted interrupt_on_unmatched =
    if aborted
    then some (inbox, rejected)
    else option_else (fetch inbox.messages inbox.order) none
        λ ms. some (wait_among inbox f (if interrupt_on_unmatched then some now else none) ms)

abbrev pub is_waiting : MeshInbox → ℕ → Bool
is_waiting inbox key = any (λ w. w.key == key) inbox.waiters

abbrev pub is_settled : MeshInbox → ℕ → Bool
is_settled inbox key = any (λ s. s.0 == key) inbox.settled

abbrev pub give_up : MeshInbox → ℕ → MeshInbox
give_up inbox key = record inbox {
  waiters = keep (λ w. not (w.key == key)) inbox.waiters;
  settled = inbox.settled ++ ((key, none) ∷ []);
}

-- The timer of a wait runs out: it is a timer of a waiter, since all else clears it.
unfoldable pub time_out : MeshInbox → ℕ → MeshInbox
time_out inbox key = if is_waiting inbox key then give_up inbox key else inbox

-- The abort signal of a wait fires, also after `clear` has forgotten the waiter.
unfoldable pub abort_wait : MeshInbox → ℕ → MeshInbox
abort_wait inbox key =
    if ltb key inbox.issued && not (is_settled inbox key) then give_up inbox key else inbox

unfoldable pub clear : MeshInbox → MeshInbox
clear inbox = record inbox { waiters = []; messages = []; order = [] }

abbrev size : MeshInbox → ℕ
size inbox = length inbox.messages
