-- ===== src/Transcript/Settling.antt =====
-- Which result each row of a transcript has.
use un_bien.Prelude.{
  ◌≡◌, refl, ap, ◌∙◌, ℕ, zero, suc, ◌+◌, ◌≤◌, ◌<◌, false, ◌==◌, Option, none, some, List, [], ◌∷◌,
  ◌++◌, length, Text, text_eq, text_eq_iff, if◌then◌else◌, option_else, arith, ◌≢◌,
}
use un_bien.Prelude.Dict
use un_bien.Transcript.{
  TranscriptItem, message, tool, notice, ToolCard, ToolResult, Transcript, set_result, update_at,
}

-- What a row is in the end, if `later` says which result the rest of the stream has for a tool.
abbrev pub fulfilled : (Text → Option ToolResult) → TranscriptItem → TranscriptItem
fulfilled later (message m) = message m
fulfilled later (notice level text) = notice level text
fulfilled later (tool card) =
    tool (record card { result = option_else (later card.tool_call_id) card.result some })

-- The result of the row at `j`, which is `old` so far, if the map of cards says `held`.
abbrev pub outcome :
    (Text → Option ℕ)
    → (Text → Option ToolResult)
    → ℕ
    → Text
    → Option ToolResult
    → Option ToolResult
outcome held later j id old =
    if option_else (held id) false (λ n. n == j) then option_else (later id) old some else old

abbrev pub settle_row :
    (Text → Option ℕ) → (Text → Option ToolResult) → ℕ → TranscriptItem → TranscriptItem
settle_row held later j (message m) = message m
settle_row held later j (notice level text) = notice level text
settle_row held later j (tool card) =
    tool (record card { result = outcome held later j card.tool_call_id card.result })

-- The rows from the place `k` on, of which only those that the map holds are still open.
abbrev pub settle :
    (Text → Option ℕ) → (Text → Option ToolResult) → ℕ → List TranscriptItem → List TranscriptItem
settle held later k [] = []
settle held later k (i ∷ is) = settle_row held later k i ∷ settle held later (suc k) is

-- The tool of the row at a place.
abbrev pub tool_at : ℕ → List TranscriptItem → Option Text
tool_at n [] = none
tool_at zero (message m ∷ is) = none
tool_at zero (notice level text ∷ is) = none
tool_at zero (tool card ∷ is) = some card.tool_call_id
tool_at (suc n) (i ∷ is) = tool_at n is

-- The map of cards holds a place of a card of the tool.
abbrev pub IsLinked : Transcript → Type 0
IsLinked t = (id : Text) (n : ℕ) → Dict.get t.tools_by_id id ≡ some n → tool_at n t.items ≡ some id

module _ (held held' : Text → Option ℕ) (later later' : Text → Option ToolResult) where
  -- The two agree on what becomes of a row.
  abbrev Agrees : ℕ → Type 0
  Agrees j =
      (id : Text) (old : Option ToolResult)
      → outcome held later j id old ≡ outcome held' later' j id old

  settle_row_cong :
      (j : ℕ) (i : TranscriptItem)
      → Agrees j
      → settle_row held later j i ≡ settle_row held' later' j i
  settle_row_cong j (message m) h = refl
  settle_row_cong j (notice level text) h = refl
  settle_row_cong j (tool card) h =
      ap (λ r. tool (record card { result = r })) (h card.tool_call_id card.result)

  pub settle_cong :
      (k : ℕ) (is : List TranscriptItem)
      → ((j : ℕ) → k ≤ j → j < k + length is → Agrees j)
      → settle held later k is ≡ settle held' later' k is
  settle_cong k [] h = refl
  settle_cong k (i ∷ is) h =
      ap (λ x. x ∷ settle held later (suc k) is)
        (settle_row_cong k i (h k (omega arith) (omega arith)))
      ∙ ap (λ x. settle_row held' later' k i ∷ x)
          (settle_cong (suc k) is λ j a b. h j (omega (arith, a)) (omega (arith, b)))

-- Without results to come nothing changes.
pub settle_nothing :
    (held : Text → Option ℕ) (k : ℕ) (is : List TranscriptItem) → settle held (λ id. none) k is ≡ is
settle_nothing held k [] = refl
settle_nothing held k (message m ∷ is) = ap (λ x. message m ∷ x) (settle_nothing held (suc k) is)
settle_nothing held k (notice level text ∷ is) =
    ap (λ x. notice level text ∷ x) (settle_nothing held (suc k) is)
settle_nothing held k (tool card ∷ is) =
    ap (λ r. tool (record card { result = r }) ∷ settle held (λ id. none) (suc k) is) (ground arith)
    ∙ ap (λ x. tool card ∷ x) (settle_nothing held (suc k) is)

pub settle-append :
    (held : Text → Option ℕ) (later : Text → Option ToolResult) (k : ℕ)
    (is js : List TranscriptItem)
    → settle held later k (is ++ js)
      ≡ settle held later k is ++ settle held later (length is + k) js
settle-append held later k [] js = ap (λ n. settle held later n js) (omega arith)
settle-append held later k (i ∷ is) js =
    ap (λ x. settle_row held later k i ∷ x)
      (settle-append held later (suc k) is js
        ∙ ap (λ n. settle held later (suc k) is ++ settle held later n js) (omega arith))

pub tool_at-append :
    (n : ℕ) (is js : List TranscriptItem) (id : Text)
    → tool_at n is ≡ some id
    → tool_at n (is ++ js) ≡ some id
tool_at-append n [] js id h = absurd (cc)
tool_at-append zero (message m ∷ is) js id h = h
tool_at-append zero (notice level text ∷ is) js id h = h
tool_at-append zero (tool card ∷ is) js id h = h
tool_at-append (suc n) (i ∷ is) js id h = tool_at-append n is js id h

pub tool_at-last :
    (is : List TranscriptItem) (card : ToolCard)
    → tool_at (length is) (is ++ (tool card ∷ [])) ≡ some card.tool_call_id
tool_at-last [] card = refl
tool_at-last (i ∷ is) card = tool_at-last is card

pub tool_at-update_at :
    (n m : ℕ) (r : ToolResult) (is : List TranscriptItem)
    → tool_at n (update_at m r is) ≡ tool_at n is
tool_at-update_at n m r [] = refl
tool_at-update_at zero zero r (message x ∷ is) = refl
tool_at-update_at zero zero r (notice level text ∷ is) = refl
tool_at-update_at zero zero r (tool card ∷ is) = refl
tool_at-update_at zero (suc m) r (message x ∷ is) = refl
tool_at-update_at zero (suc m) r (notice level text ∷ is) = refl
tool_at-update_at zero (suc m) r (tool card ∷ is) = refl
tool_at-update_at (suc n) zero r (i ∷ is) = refl
tool_at-update_at (suc n) (suc m) r (i ∷ is) = tool_at-update_at n m r is

-- A result that is written now is one that the rest of the stream has, unless it has a later one.
abbrev pub now_or_later : (Text → Option ToolResult) → Text → ToolResult → Text → Option ToolResult
now_or_later later id r x =
    if text_eq id x then some (option_else (later x) r (λ s. s)) else later x

module _ (held : Text → Option ℕ) (later : Text → Option ToolResult) (id : Text)
    (r : ToolResult) where
  off_place :
      (n j : ℕ) → held id ≡ some n → n ≢ j → Agrees held held later (now_or_later later id r) j
  off_place n j h apart x old = ground (arith, text_eq_iff id x)

  here :
      (n : ℕ) (i : TranscriptItem) (is : List TranscriptItem)
      → held id ≡ some n
      → tool_at 0 (i ∷ is) ≡ some id
      → settle_row held later n (set_result r i) ≡ settle_row held (now_or_later later id r) n i
  here n (message m) is h t = absurd (cc)
  here n (notice level text) is h t = absurd (cc)
  here n (tool card) is h t =
      ap (λ x. tool (record card { result = x })) (ground (arith, text_eq_iff id card.tool_call_id))

  pub settle-update_at :
      (n k : ℕ) (is : List TranscriptItem)
      → held id ≡ some (n + k)
      → tool_at n is ≡ some id
      → settle held later k (update_at n r is) ≡ settle held (now_or_later later id r) k is
  settle-update_at n k [] h t = absurd (cc)
  settle-update_at zero k (i ∷ is) h t =
      ap (λ x. x ∷ settle held later (suc k) is) (here k i is (h ∙ ap some (omega arith)) t)
      ∙ ap (λ x. settle_row held (now_or_later later id r) k i ∷ x)
          (settle_cong held held later (now_or_later later id r) (suc k) is
            λ j a b. off_place k j (h ∙ ap some (omega arith)) (ground (arith, a)))
  settle-update_at (suc n) k (i ∷ is) h t =
      ap (λ x. x ∷ settle held later (suc k) (update_at n r is))
        (settle_row_cong held held later (now_or_later later id r) k i
          (off_place (suc n + k) k h (ground arith)))
      ∙ ap (λ x. settle_row held (now_or_later later id r) k i ∷ x)
          (settle-update_at n (suc k) is (h ∙ ap some (omega arith)) t)
