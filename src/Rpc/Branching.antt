-- ===== src/Rpc/Branching.antt =====
-- The walk over a transcript whose leaf is not its last entry, as after a move back in its tree.
use un_bien.Prelude.{
  ◌≡◌, refl, sym, ◌∙◌, ap, subst, ℕ, suc, ◌+◌, ◌≤◌, Bool, true, false, ◌&&◌, Option, none, some,
  List, [], ◌∷◌, ◌++◌, Text, text_eq, arith, text_eq_refl, if_taken, if_refused, option_taken, ltb,
  ◌==◌, ==_iff, length,
}
use un_bien.Json.{Value}
use un_bien.Rpc.Fitting.{PortEntry, fit_entry_for_transport}
use un_bien.Rpc.Pages.{
  GetEntriesResult, after_entry, page_leaf, take_page, page_of, get_entries, walk_on, walk_entries,
}
use un_bien.Rpc.Cutting.{fits, total}
use un_bien.Rpc.Cursors.{Named, Apart, Apart-middle, after_entry-middle, walk_on-more, length-map}
use un_bien.Rpc.Walk.{answer-first, answer-after}

module _ (size : Value → ℕ) (budget : ℕ) where
  take_page-whole :
      (used : ℕ) (started : Bool) (entries : List PortEntry)
      → used + total size (fits size entries) ≤ budget
      → take_page size budget used started entries ≡ fits size entries
  unfolding take_page
  take_page-whole used started [] h = refl
  take_page-whole used started (e ∷ es) h =
      if_refused (λ xs. xs ≡ fits size (e ∷ es))
        (started && ltb budget (used + size (fit_entry_for_transport size e))) _ (ground arith)
        (ap (λ xs. fit_entry_for_transport size e ∷ xs)
          (take_page-whole (used + size (fit_entry_for_transport size e)) true es
            (omega (arith, h))))

  abbrev page_with : List PortEntry → Option Text → GetEntriesResult
  page_with entries leaf = record { entries = entries; leaf_id = leaf }

  -- Entries that fit on one page come with the leaf.
  page_of-whole :
      (e : PortEntry) (es : List PortEntry) (leaf : Option Text)
      → total size (fits size (e ∷ es)) ≤ budget
      → page_of size (e ∷ es) leaf budget ≡ page_with (fits size (e ∷ es)) leaf
  unfolding page_of
  page_of-whole e es leaf h =
      ap (λ xs. page_with xs (page_leaf xs (e ∷ es) leaf))
        (take_page-whole 0 false (e ∷ es) (omega (arith, h)))
      ∙ ap (page_with (fits size (e ∷ es))) (
          if_taken (λ o. o ≡ leaf) (length (fits size (e ∷ es)) == length (e ∷ es)) _
            ((==_iff (length (fits size (e ∷ es))) (length (e ∷ es))).1
              (length-map (fit_entry_for_transport size) (e ∷ es)))
            refl)

  -- A page whose leaf is the cursor that it was asked for by ends the walk.
  walk_entries-stuck :
      (n : ℕ) (session : GetEntriesResult) (e : PortEntry) (es : List PortEntry) (l : PortEntry)
      (name : Named l)
      → session.leaf_id ≡ some name.id
      → after_entry session.entries name.id ≡ some (e ∷ es)
      → total size (fits size (e ∷ es)) ≤ budget
      → walk_entries (suc n) (get_entries size (some session) budget) (some name.id)
        ≡ fits size (e ∷ es)
  unfolding walk_entries walk_on
  walk_entries-stuck n session e es l name leaf after small =
      option_taken (λ xs. xs ≡ fits size (e ∷ es))
        (get_entries size (some session) budget (some name.id)) _ _
        (page_with (fits size (e ∷ es)) (some name.id))
        (answer-after size session budget name.id (e ∷ es) after
          ∙ ap (λ o. some (page_of size (e ∷ es) o budget)) leaf
          ∙ ap some (page_of-whole e es (some name.id) small))
        (ap
            (λ o.
              walk_on (fits size (e ∷ es)) o (some name.id)
                (walk_entries n (get_entries size (some session) budget) o))
            name.full
          ∙ if_taken (λ xs. xs ≡ fits size (e ∷ es)) (text_eq name.id name.id) _
              (text_eq_refl name.id) refl)

  -- The first page, where it holds all of the entries.
  walk_entries-first :
      (n : ℕ) (session : GetEntriesResult) (e : PortEntry) (es : List PortEntry) (l : PortEntry)
      (name : Named l)
      → session.entries ≡ e ∷ es
      → session.leaf_id ≡ some name.id
      → total size (fits size (e ∷ es)) ≤ budget
      → walk_entries (suc n) (get_entries size (some session) budget) none
        ≡ fits size (e ∷ es)
          ++ walk_entries n (get_entries size (some session) budget) (some name.id)
  unfolding walk_entries
  walk_entries-first n session e es l name all leaf small =
      option_taken (λ xs. xs ≡ fits size (e ∷ es) ++ walk_entries n answers (some name.id))
        (answers none) _ _ (page_with (fits size (e ∷ es)) (some name.id))
        (answer-first size session budget
          ∙ ap (λ xs. some (page_of size xs session.leaf_id budget)) all
          ∙ ap (λ o. some (page_of size (e ∷ es) o budget)) leaf
          ∙ ap some (page_of-whole e es (some name.id) small))
        (ap (λ o. walk_on (fits size (e ∷ es)) o none (walk_entries n answers o)) name.full
          ∙ walk_on-more (fit_entry_for_transport size e) (fits size es) _ name.id none refl)
    where
      answers : Option Text → Option GetEntriesResult
      answers = get_entries size (some session) budget

  -- If all entries fit on one page, no two have the same id, and the leaf of the session is not the last but has
  -- others after it, then a walk of two pages or more brings the entries after the leaf twice.
  pub walk_entries-twice :
      (n : ℕ) (before after : List PortEntry) (l e : PortEntry) (name : Named l)
      → Apart (before ++ (l ∷ e ∷ after))
      → total size (fits size (before ++ (l ∷ e ∷ after))) ≤ budget
      → walk_entries
          (suc (suc n))
          (get_entries size (some (page_with (before ++ (l ∷ e ∷ after)) (some name.id))) budget)
          none
        ≡ fits size (before ++ (l ∷ e ∷ after)) ++ fits size (e ∷ after)
  walk_entries-twice n before after l e name apart small =
      let session = page_with (before ++ (l ∷ e ∷ after)) (some name.id) in
      let (d, (ds, view)) = some-view before l (e ∷ after) in
      walk_entries-first (suc n) session d ds l name view refl
        (subst (λ xs. total size (fits size xs) ≤ budget) view small)
      ∙ ap
          (λ xs.
            fits size xs
            ++ walk_entries (suc n) (get_entries size (some session) budget) (some name.id))
          (sym view)
      ∙ ap (λ ys. fits size (before ++ (l ∷ e ∷ after)) ++ ys)
          (walk_entries-stuck n session e after l name refl
            (after_entry-middle before l (e ∷ after) name.id name.has
              (Apart-middle before l (e ∷ after) apart).0)
            (tail_fits before small))
    where
      some-view :
          (xs : List PortEntry) (y : PortEntry) (ys : List PortEntry)
          → (d : PortEntry) × ((ds : List PortEntry) × (xs ++ (y ∷ ys) ≡ d ∷ ds))
      some-view [] y ys = (y, (ys, refl))
      some-view (x ∷ xs) y ys = (x, (xs ++ (y ∷ ys), refl))

      tail_fits :
          (xs : List PortEntry)
          → total size (fits size (xs ++ (l ∷ e ∷ after))) ≤ budget
          → total size (fits size (e ∷ after)) ≤ budget
      tail_fits [] h = omega (arith, h)
      tail_fits (x ∷ xs) h = tail_fits xs (omega (arith, h))
