-- ===== src/Transcript/Steps.antt =====
-- What one step of a transcript does to the results that its rows have in the end.
use un_bien.Prelude.{
  ◌≡◌, sym, ap, ◌∙◌, ℕ, ◌+◌, Option, none, some, List, [], ◌∷◌, ◌++◌, map, append-nil, length, Text,
  text_eq, text_eq_iff, text_cases, inl, inr, if◌then◌else◌, option_else, option_elim, arith,
}
use un_bien.Prelude.Dict
use un_bien.Transcript.{TranscriptItem, tool, ToolCard, ToolResult, Transcript, update_at}
use un_bien.Transcript.Settling.{
  fulfilled, settle, settle_row, outcome, settle_cong, settle-append, IsLinked, tool_at,
  tool_at-append, tool_at-last, tool_at-update_at, now_or_later, settle-update_at,
}

-- What a step does to the rows and their results, if `later` becomes `later'`.
abbrev pub Steps :
    (Text → Option ToolResult)
    → (Text → Option ToolResult)
    → Transcript
    → Transcript
    → List TranscriptItem
    → Type 0
Steps later later' t t' rows =
    IsLinked t'
    × (settle (Dict.get t'.tools_by_id) later' 0 t'.items
        ≡ settle (Dict.get t.tools_by_id) later 0 t.items ++ map (fulfilled later') rows)

module _ (t : Transcript) (linked : IsLinked t) (later later' : Text → Option ToolResult) where
  same_rows :
      ((id : Text) → later id ≡ later' id)
      → settle (Dict.get t.tools_by_id) later' 0 t.items
        ≡ settle (Dict.get t.tools_by_id) later 0 t.items
  same_rows h =
      settle_cong (Dict.get t.tools_by_id) (Dict.get t.tools_by_id) later' later 0 t.items
        (λ j a b id old. ground (arith, h id))

  pub idle : ((id : Text) → later id ≡ later' id) → Steps later later' t t []
  idle h =
      (linked, same_rows h ∙ sym (append-nil (settle (Dict.get t.tools_by_id) later 0 t.items)))

  abbrev pub pushed : TranscriptItem → Transcript
  pushed i = record t { items = t.items ++ (i ∷ []) }

  pushed-IsLinked : (i : TranscriptItem) → IsLinked (pushed i)
  pushed-IsLinked i id n h = tool_at-append n t.items (i ∷ []) id (linked id n h)

  pub push :
      (i : TranscriptItem)
      → settle_row (Dict.get t.tools_by_id) later' (length t.items + 0) i ≡ fulfilled later' i
      → ((id : Text) → later id ≡ later' id)
      → Steps later later' t (pushed i) (i ∷ [])
  push i e h = (
    pushed-IsLinked i,
    settle-append (Dict.get t.tools_by_id) later' 0 t.items (i ∷ [])
        ∙ ap (λ x. settle (Dict.get t.tools_by_id) later' 0 t.items ++ (x ∷ [])) e
        ∙ ap (λ x. x ++ (fulfilled later' i ∷ [])) (same_rows h),
  )

  pub push_card :
      (card : ToolCard)
      → ((id : Text) → later id ≡ (if text_eq card.tool_call_id id then none else later' id))
      → Steps later later' t
          (record {
            items = t.items ++ (tool card ∷ []);
            tools_by_id = Dict.set t.tools_by_id card.tool_call_id (length t.items);
          })
          (tool card ∷ [])
  push_card card h = (
    links,
    settle-append held' later' 0 t.items (tool card ∷ [])
        ∙ ap (λ x. settle held' later' 0 t.items ++ (tool (record card { result = x }) ∷ [])) last
        ∙ ap
            (λ x.
              x
              ++ (tool (record card {
                result = option_else (later' card.tool_call_id) card.result some;
              })
                  ∷ []))
            before,
  )
    where
      held' : Text → Option ℕ
      held' = Dict.get (Dict.set t.tools_by_id card.tool_call_id (length t.items))

      at_end : (id : Text) (n : ℕ) → card.tool_call_id ≡ id → held' id ≡ some n → n ≡ length t.items
      at_end id n same k = ground (
        arith,
        Dict.get-set t.tools_by_id card.tool_call_id id (length t.items),
        text_eq_iff card.tool_call_id id,
        same,
        k,
      )

      links : IsLinked (record {
        items = t.items ++ (tool card ∷ []);
        tools_by_id = Dict.set t.tools_by_id card.tool_call_id (length t.items);
      })
      links id n k = elim (text_cases card.tool_call_id id) [
        | inl same ↦
            ap (λ m. tool_at m (t.items ++ (tool card ∷ []))) (at_end id n same k)
            ∙ tool_at-last t.items card
            ∙ ap some same
        | inr apart ↦ tool_at-append n t.items (tool card ∷ []) id (
            linked id n (
              ground (
                arith,
                Dict.get-set t.tools_by_id card.tool_call_id id (length t.items),
                text_eq_iff card.tool_call_id id,
              )))
      ]

      last :
          outcome held' later' (length t.items + 0) card.tool_call_id card.result
          ≡ option_else (later' card.tool_call_id) card.result some
      last = rw (Dict.get-set_self t.tools_by_id card.tool_call_id (length t.items)) (ground arith)

      before : settle held' later' 0 t.items ≡ settle (Dict.get t.tools_by_id) later 0 t.items
      before = settle_cong held' (Dict.get t.tools_by_id) later' later 0 t.items λ j a b id old.
          ground (arith, h id, Dict.get-set t.tools_by_id card.tool_call_id id (length t.items), b)

  pub put_result :
      (id : Text) (r : ToolResult)
      → ((x : Text) → later x ≡ now_or_later later' id r x)
      → Steps later later' t
          (option_else
            (Dict.get t.tools_by_id id)
            t
            (λ n. record t { items = update_at n r t.items }))
          []
  put_result id r h =
      option_elim (λ (t' : Transcript). Steps later later' t t' []) (Dict.get t.tools_by_id id)
        (λ e. (
          linked,
          settle_cong (Dict.get t.tools_by_id) (Dict.get t.tools_by_id) later' later 0 t.items
                (λ j a b x old. ground (arith, h x, e, text_eq_iff id x))
              ∙ none_new,
        ))
        (λ n e. (
          λ x m k. tool_at-update_at m n r t.items ∙ linked x m k,
          settle-update_at (Dict.get t.tools_by_id) later' id r n 0 t.items
                (e ∙ ap some (omega arith)) (linked id n e)
              ∙ settle_cong (Dict.get t.tools_by_id) (Dict.get t.tools_by_id)
                  (now_or_later later' id r) later 0 t.items (λ j a b x old. ground (arith, h x))
              ∙ none_new,
        ))
    where
      none_new :
          settle (Dict.get t.tools_by_id) later 0 t.items
          ≡ settle (Dict.get t.tools_by_id) later 0 t.items ++ []
      none_new = sym (append-nil (settle (Dict.get t.tools_by_id) later 0 t.items))
