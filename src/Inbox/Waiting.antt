-- ===== src/Inbox/Waiting.antt =====
-- Nobody waits for a message that is there: what every use of the inbox preserves.
use un_bien.Prelude.{
  ◌≡◌, refl, ◌∙◌, subst, ℕ, Bool, false, ltb, ◌&&◌, not, Option, none, some, List, [], ◌∷◌, ◌++◌,
  if◌then◌else◌, if_elim, option_elim, arith, keep, find, drop, length, All, ◌==◌, ◌-◌, zero, suc,
}
use un_bien.Inbox.{
  MeshMessage, MeshFilter, MeshInbox, Waiter, Waited, takes, matches_filter, is_interrupt_candidate,
  add, notify, wait, wait_among, start_wait, time_out, abort_wait, clear, empty_inbox, give_up,
  is_waiting, is_settled,
}
use un_bien.Inbox.Refinement.{Holds, spec_add, add_cases, add-Holds}
use un_bien.Inbox.Listing.{fetch-Holds}

-- The waiter takes none of the messages.
abbrev pub Misses : List MeshMessage → Waiter → Type 0
Misses ms w = All (λ m. takes w m ≡ false) ms

-- The inbox holds `ms`, and each of its waiters waits for something else.
pub record Sound (inbox : MeshInbox) (ms : List MeshMessage) : Type 0 where
  pub holds : Holds inbox ms
  pub waits : All (Misses ms) inbox.waiters

-- The uses of an inbox: the delivery of a message, a wait, and the two ends of one.
pub data Use (inbox : MeshInbox) (ms : List MeshMessage)
    : MeshInbox → List MeshMessage → Type 0 where
  delivers : (m : MeshMessage) → Use inbox ms (add inbox m) (spec_add inbox.cap ms m)
  waits :
      (f : MeshFilter) (now : ℕ) (aborted interrupted : Bool) {inbox' : MeshInbox} {w : Waited}
      → wait inbox f now aborted interrupted ≡ some (inbox', w)
      → Use inbox ms inbox' ms
  times_out : (key : ℕ) → Use inbox ms (time_out inbox key) ms
  aborts : (key : ℕ) → Use inbox ms (abort_wait inbox key) ms
  clears : Use inbox ms (clear inbox) []

module _ {A : Type 0} (P : A → Type 0) where
  All-keep : (p : A → Bool) (xs : List A) → All P xs → All P (keep p xs)
  All-keep p [] a = tt
  All-keep p (x ∷ xs) a =
      if_elim (All P) (p x) (λ _. (a.0, All-keep p xs a.1)) (λ _. All-keep p xs a.1)

  All-snoc : (xs : List A) (x : A) → All P xs → P x → All P (xs ++ (x ∷ []))
  All-snoc [] x a p = (p, tt)
  All-snoc (y ∷ ys) x a p = (a.0, All-snoc ys x a.1 p)

  All-drop : (n : ℕ) (xs : List A) → All P xs → All P (drop n xs)
  All-drop zero xs a = a
  All-drop (suc n) [] a = a
  All-drop (suc n) (x ∷ xs) a = All-drop n xs a.1

All-map :
    {A : Type 0} (P Q : A → Type 0) (xs : List A) → ((x : A) → P x → Q x) → All P xs → All Q xs
All-map P Q [] h a = tt
All-map P Q (x ∷ xs) h a = (h x a.0, All-map P Q xs h a.1)

-- `find` finds nothing only where there is nothing.
find-none :
    (p : MeshMessage → Bool) (ms : List MeshMessage) → find p ms ≡ none → All (λ m. p m ≡ false) ms
find-none p [] h = tt
find-none p (m ∷ ms) h = (ground arith, find-none p ms (ground arith))

same-Holds :
    (inbox inbox' : MeshInbox) (ms : List MeshMessage)
    → Holds inbox ms
    → inbox'.messages ≡ inbox.messages
    → inbox'.order ≡ inbox.order
    → inbox'.cap ≡ inbox.cap
    → Holds inbox' ms
same-Holds inbox inbox' ms h m o c = record {
  messages = m ∙ h.messages;
  order = o ∙ h.order;
  distinct = h.distinct;
  bounded = omega (arith, h.bounded, c);
}

-- Whom a new message does not wake, it does not concern.
keep-Misses :
    (ms : List MeshMessage) (m : MeshMessage) (ws : List Waiter)
    → All (Misses ms) ws
    → All (Misses (ms ++ (m ∷ []))) (keep (λ w. not (takes w m)) ws)
keep-Misses ms m [] a = tt
keep-Misses ms m (w ∷ ws) a =
    if_elim (All (Misses (ms ++ (m ∷ [])))) (not (takes w m))
      (λ idle. (All-snoc (λ x. takes w x ≡ false) ms m a.0 (ground arith), keep-Misses ms m ws a.1))
      (λ _. keep-Misses ms m ws a.1)

add-Sound :
    (inbox : MeshInbox) (ms : List MeshMessage) (m : MeshMessage)
    → Sound inbox ms
    → Sound (add inbox m) (spec_add inbox.cap ms m)
unfolding notify
add-Sound inbox ms m s = record {
  holds = add-Holds inbox ms m s.holds;
  waits =
      add_cases (λ i l. All (Misses l) i.waiters) inbox ms m s.holds (λ _. s.waits)
        λ _.
          let n = length (ms ++ (m ∷ [])) - inbox.cap in
          All-map (Misses (ms ++ (m ∷ []))) (Misses (drop n (ms ++ (m ∷ []))))
            (keep (λ w. not (takes w m)) inbox.waiters)
            (λ w. All-drop (λ x. takes w x ≡ false) n (ms ++ (m ∷ [])))
            (keep-Misses ms m inbox.waiters s.waits);
}

abbrev Keeps : List MeshMessage → Option (MeshInbox × Waited) → Type 0
Keeps ms none = Unit
Keeps ms (some r) = Sound r.0 ms

start_wait-Sound :
    (inbox : MeshInbox) (ms : List MeshMessage) (f : MeshFilter) (interrupts : Option ℕ)
    → Sound inbox ms
    → Misses ms (record { key = inbox.issued; filter = f; interrupts = interrupts })
    → Sound (start_wait inbox f interrupts).0 ms
unfolding start_wait
start_wait-Sound inbox ms f interrupts s misses = record {
  holds = same-Holds inbox _ ms s.holds refl refl refl;
  waits = All-snoc (Misses ms) inbox.waiters _ s.waits misses;
}

wait_among-Sound :
    (inbox : MeshInbox) (ms : List MeshMessage) (f : MeshFilter) (interrupts : Option ℕ)
    → Sound inbox ms
    → Sound (wait_among inbox f interrupts ms).0 ms
unfolding wait_among
wait_among-Sound inbox ms f interrupts s =
    option_elim Sound_of (find (λ m. matches_filter m f) ms)
      (λ unmatched.
        option_elim Sound_of interrupts
          (λ _. start_wait-Sound inbox ms f none s (
            All-map _ (λ m. takes (waiter none) m ≡ false) ms (λ m h. ground arith)
              (find-none _ ms unmatched)))
          λ now _.
            option_elim Sound_of (find (λ m. is_interrupt_candidate m f now) ms)
              (λ calm.
                start_wait-Sound inbox ms f (some now) s
                  (both now ms (find-none _ ms unmatched) (find-none _ ms calm)))
              (λ _ _. s))
      (λ _ _. s)
  where
    Sound_of : MeshInbox × Waited → Type 0
    Sound_of r = Sound r.0 ms

    waiter : Option ℕ → Waiter
    waiter i = record { key = inbox.issued; filter = f; interrupts = i }

    both :
        (now : ℕ) (ms : List MeshMessage)
        → All (λ m. matches_filter m f ≡ false) ms
        → All (λ m. is_interrupt_candidate m f now ≡ false) ms
        → Misses ms (waiter (some now))
    both now [] a b = tt
    both now (m ∷ ms) a b = (rw (a.0, b.0) refl, both now ms a.1 b.1)

wait-Keeps :
    (inbox : MeshInbox) (ms : List MeshMessage) (f : MeshFilter) (now : ℕ)
    (aborted interrupted : Bool)
    → Sound inbox ms
    → Keeps ms (wait inbox f now aborted interrupted)
unfolding wait
wait-Keeps inbox ms f now aborted interrupted s = rw (fetch-Holds inbox ms s.holds) (
    if_elim (Keeps ms) aborted (λ _. s)
      (λ _. wait_among-Sound inbox ms f (if interrupted then some now else none) s))

give_up-Sound :
    (inbox : MeshInbox) (ms : List MeshMessage) (key : ℕ)
    → Sound inbox ms
    → Sound (give_up inbox key) ms
give_up-Sound inbox ms key s = record {
  holds = same-Holds inbox (give_up inbox key) ms s.holds refl refl refl;
  waits = All-keep (Misses ms) (λ w. not (w.key == key)) inbox.waiters s.waits;
}

-- Each use of an inbox keeps it sound: its map and its order hold the messages that the
-- specification says, at most as many as its cap, and nobody waits in it for a message that is
-- there.
pub Use-Sound :
    {inbox inbox' : MeshInbox} {ms ms' : List MeshMessage}
    → Use inbox ms inbox' ms'
    → Sound inbox ms
    → Sound inbox' ms'
unfolding time_out abort_wait clear
Use-Sound {inbox} {ms = ms} (delivers m) s = add-Sound inbox ms m s
Use-Sound {inbox} {inbox'} {ms} (waits f now aborted interrupted e) s =
    subst (Keeps ms) e (wait-Keeps inbox ms f now aborted interrupted s)
Use-Sound {inbox} {ms = ms} (times_out key) s =
    if_elim (λ i. Sound i ms) (is_waiting inbox key) (λ _. give_up-Sound inbox ms key s) (λ _. s)
Use-Sound {inbox} {ms = ms} (aborts key) s =
    if_elim (λ i. Sound i ms) (ltb key inbox.issued && not (is_settled inbox key))
      (λ _. give_up-Sound inbox ms key s) (λ _. s)
Use-Sound {inbox} clears s = record {
  holds = record { messages = refl; order = refl; distinct = tt; bounded = omega arith };
  waits = tt;
}

pub empty_inbox-Sound : (cap : ℕ) → Sound (empty_inbox cap) []
unfolding empty_inbox
empty_inbox-Sound cap = record {
  holds = record { messages = refl; order = refl; distinct = tt; bounded = omega arith };
  waits = tt;
}
