-- ===== src/Inbox/Listing.antt =====
-- What is read of the inbox is read of the messages that it holds.
use un_bien.Prelude.{
  ◌≡◌, refl, sym, ap, ◌∙◌, ℕ, Bool, true, Option, none, some, List, [], ◌∷◌, Text, text_eq,
  option_else, false, ltb, arith, leb, keep, ◌&&◌, ◌⊎◌, inl, inr, ◌≤◌, ◌-◌, ◌++◌, zero, suc, length,
  take, drop, false≢true, if_elim, if_taken, le→leb, length-drop, eq_of_text_eq, option_elim,
  text_eq_refl,
}
use un_bien.Inbox.{
  MeshMessage, MeshFilter, MeshInbox, fetch, list_messages, narrow, newest, matches_filter, is_re,
}
use un_bien.Inbox.Refinement.{entries, Holds, fetch-entries}

pub fetch-Holds :
    (inbox : MeshInbox) (ms : List MeshMessage)
    → Holds inbox ms
    → fetch inbox.messages inbox.order ≡ some ms
fetch-Holds inbox ms h =
    ap (λ d. fetch d inbox.order) h.messages
    ∙ ap (fetch (entries ms)) h.order
    ∙ fetch-entries ms h.distinct

keep-keep :
    (p q : MeshMessage → Bool) (ms : List MeshMessage)
    → keep q (keep p ms) ≡ keep (λ m. p m && q m) ms
keep-keep p q [] = refl
keep-keep p q (m ∷ ms) = ground (arith, keep-keep p q ms)

keep-true : (ms : List MeshMessage) → keep (λ m. true) ms ≡ ms
keep-true [] = refl
keep-true (m ∷ ms) = ap (λ x. m ∷ x) (keep-true ms)

optional :
    {A : Type 0} (o : Option A) (test : A → MeshMessage → Bool) (ms : List MeshMessage)
    → option_else o ms (λ a. keep (test a) ms) ≡ keep (λ m. option_else o true (λ a. test a m)) ms
optional none test ms = sym (keep-true ms)
optional (some a) test ms = refl

-- Filtering thrice is filtering by the three tests.
narrow-keep :
    (f : MeshFilter) (ms : List MeshMessage) → narrow f ms ≡ keep (λ m. matches_filter m f) ms
narrow-keep f ms =
    optional f.since_ms late (
      option_else f.re (option_else f.from ms (λ a. keep (sender a) ms))
        (λ r. keep (reply r) (option_else f.from ms (λ a. keep (sender a) ms))))
    ∙ ap (keep (λ m. option_else f.since_ms true (λ s. late s m))) (
        optional f.re reply (option_else f.from ms (λ a. keep (sender a) ms))
        ∙ ap (keep (λ m. option_else f.re true (λ r. reply r m))) (optional f.from sender ms))
    ∙ keep-keep (λ m. option_else f.re true (λ r. reply r m))
        (λ m. option_else f.since_ms true (λ s. late s m))
        (keep (λ m. option_else f.from true (λ a. sender a m)) ms)
    ∙ keep-keep (λ m. option_else f.from true (λ a. sender a m))
        (λ m. option_else f.re true (λ r. reply r m) && option_else f.since_ms true (λ s. late s m))
        ms
  where
    sender : Text → MeshMessage → Bool
    sender a m = text_eq m.from a

    reply : Text → MeshMessage → Bool
    reply r m = is_re m r

    late : ℕ → MeshMessage → Bool
    late s m = leb s m.sent_at

-- A message is from the one asked for, replies to what is asked for and was sent no earlier.
pub record Matches (f : MeshFilter) (m : MeshMessage) : Type 0 where
  pub from : (a : Text) → f.from ≡ some a → m.from ≡ a
  pub re : (r : Text) → f.re ≡ some r → m.re ≡ some r
  pub since : (s : ℕ) → f.since_ms ≡ some s → s ≤ m.sent_at

-- The messages of the first list that match are the second list, in the same order.
pub data Picks (f : MeshFilter) : List MeshMessage → List MeshMessage → Type 0 where
  nothing : Picks f [] []
  picked :
      {m : MeshMessage} {ms ns : List MeshMessage}
      → Matches f m
      → Picks f ms ns
      → Picks f (m ∷ ms) (m ∷ ns)
  passed :
      {m : MeshMessage} {ms ns : List MeshMessage}
      → ¬ Matches f m
      → Picks f ms ns
      → Picks f (m ∷ ms) ns

-- No limit, or one of zero, takes all; another takes the end of the list, as long as the limit or
-- else the whole list.
abbrev pub Newest : Option ℕ → List MeshMessage → List MeshMessage → Type 0
Newest none all taken = taken ≡ all
Newest (some zero) all taken = taken ≡ all
Newest (some (suc n)) all taken =
    (older : List MeshMessage) × (all ≡ older ++ taken)
    × ((length taken ≡ suc n) ⊎ ((older ≡ []) × (length taken ≤ n)))

-- What may be returned of the messages `ms`.
pub record Listed (f : MeshFilter) (limit : Option ℕ) (ms taken : List MeshMessage) : Type 0 where
  pub matching : List MeshMessage
  pub picks : Picks f ms matching
  pub newest_of : Newest limit matching taken

re_of : (o : Option Text) (r : Text) → option_else o false (λ t. text_eq t r) ≡ true → o ≡ some r
re_of none r h = absurd (false≢true h)
re_of (some t) r h = ap some (eq_of_text_eq t r h)

matches_filter-Matches :
    (f : MeshFilter) (m : MeshMessage) → matches_filter m f ≡ true → Matches f m
matches_filter-Matches f m h = record {
  from = λ a e. ground (arith, eq_of_text_eq m.from a);
  re = λ r e. re_of m.re r (ground arith);
  since = λ s e. ground (arith);
}

matches_filter-of_Matches :
    (f : MeshFilter) (m : MeshMessage) → Matches f m → matches_filter m f ≡ true
matches_filter-of_Matches f m h = ground (arith, test_from, test_re, test_since)
  where
    test_from : option_else f.from true (λ a. text_eq m.from a) ≡ true
    test_from =
        option_elim (λ b. b ≡ true) f.from (λ _. refl) (λ a e. rw (h.from a e) (text_eq_refl a))

    test_re : option_else f.re true (is_re m) ≡ true
    test_re = option_elim (λ b. b ≡ true) f.re (λ _. refl) (λ r e. rw (h.re r e) (text_eq_refl r))

    test_since : option_else f.since_ms true (λ s. leb s m.sent_at) ≡ true
    test_since =
        option_elim (λ b. b ≡ true) f.since_ms (λ _. refl) (λ s e. le→leb s m.sent_at (h.since s e))

keep-Picks :
    (f : MeshFilter) (ms : List MeshMessage) → Picks f ms (keep (λ m. matches_filter m f) ms)
keep-Picks f [] = nothing
keep-Picks f (m ∷ ms) =
    if_elim (Picks f (m ∷ ms)) (matches_filter m f)
      (λ yes. picked (matches_filter-Matches f m yes) (keep-Picks f ms))
      (λ no. passed (λ h. false≢true (sym no ∙ matches_filter-of_Matches f m h)) (keep-Picks f ms))

take-append-drop : (n : ℕ) (ms : List MeshMessage) → ms ≡ take n ms ++ drop n ms
take-append-drop zero ms = refl
take-append-drop (suc n) [] = refl
take-append-drop (suc n) (m ∷ ms) = ap (λ x. m ∷ x) (take-append-drop n ms)

newest-Newest : (limit : Option ℕ) (ms : List MeshMessage) → Newest limit ms (newest limit ms)
newest-Newest none ms = refl
newest-Newest (some zero) ms = refl
newest-Newest (some (suc n)) ms =
    if_taken (Newest (some (suc n)) ms) (ltb 0 (suc n)) ms (ground arith)
      (take (length ms - suc n) ms, take-append-drop (length ms - suc n) ms, ends (omega arith))
  where
    ends :
        (suc n ≤ length ms) ⊎ (length ms ≤ n)
        → (length (drop (length ms - suc n) ms) ≡ suc n)
          ⊎ ((take (length ms - suc n) ms ≡ []) × (length (drop (length ms - suc n) ms) ≤ n))
    ends (inl h) = inl (omega (arith, length-drop (length ms - suc n) ms, h))
    ends (inr h) =
        let e : length ms - suc n ≡ 0 = omega (arith, h) in
        inr (ap (λ k. take k ms) e, omega (arith, length-drop (length ms - suc n) ms, h))

-- Of an inbox that holds the messages `ms`, in order, `list` finds every one. It returns those that
-- match the filter (from the sender, in reply to the message and sent no earlier than it names) in
-- their order, or where a limit above zero is given the last of these, as many as the limit, or all if
-- there are fewer.
pub list_messages-Holds :
    (inbox : MeshInbox) (ms : List MeshMessage) (f : MeshFilter) (limit : Option ℕ)
    → Holds inbox ms
    → (taken : List MeshMessage) × (list_messages inbox f limit ≡ some taken)
      × Listed f limit ms taken
unfolding list_messages
list_messages-Holds inbox ms f limit h = (
  newest limit (keep (λ m. matches_filter m f) ms),
  rw (fetch-Holds inbox ms h, narrow-keep f ms) refl,
  record {
    matching = keep (λ m. matches_filter m f) ms;
    picks = keep-Picks f ms;
    newest_of = newest-Newest limit (keep (λ m. matches_filter m f) ms);
  },
)
