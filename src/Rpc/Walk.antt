-- ===== src/Rpc/Walk.antt =====
-- The client's walk over all of the pages.
use un_bien.Prelude.{
  truthy, ◌≡◌, refl, sym, ◌∙◌, ap, subst, ℕ, zero, suc, ◌≤◌, ◌<◌, true, false, Option, none, some,
  List, [], ◌∷◌, ◌++◌, Text, arith, text_eq-false, if_elim, if_refused, option_taken, ◌==◌, ==_iff,
  option_else, length, length-append, map, ◌≢◌, All, append-nil, append_assoc,
}
use un_bien.Json.{Value}
use un_bien.Rpc.Fitting.{PortEntry, entry_id, fit_entry_for_transport}
use un_bien.Rpc.Pages.{
  GetEntriesResult, after_entry, remaining_after, last_id, page_leaf, page_of, page_entries,
  get_entries, is_since, walk_on, walk_entries,
}
use un_bien.Rpc.Ids.{entry_id-fit}
use un_bien.Rpc.Cutting.{fits, page_of-Cut, page_of-some}
use un_bien.Rpc.Cursors.{
  Named, Other, Apart, All-append, Apart-middle, after_entry-middle, last_id-snoc, front-view,
  walk_on-more, map-append, length-map, length-none,
}

module _ (size : Value → ℕ) (session : GetEntriesResult) (budget : ℕ) where
  abbrev answer : Option Text → Option GetEntriesResult
  answer = get_entries size (some session) budget

  -- A page that ends in an entry gives its id as the cursor.
  page_leaf-last :
      (before init back : List PortEntry) (l : PortEntry) (i : Text)
      → session.entries ≡ before ++ ((init ++ (l ∷ [])) ++ back)
      → session.leaf_id ≡ last_id session.entries
      → entry_id l ≡ some i
      → length i ≤ 256
      → page_leaf (fits size (init ++ (l ∷ []))) ((init ++ (l ∷ [])) ++ back) session.leaf_id
        ≡ some i
  page_leaf-last before init back l i all leaf has short =
      if_elim (λ o. o ≡ some i)
        (length (fits size (init ++ (l ∷ []))) == length ((init ++ (l ∷ [])) ++ back))
        (λ complete.
          leaf
          ∙ ap last_id (all ∙ whole (none_left complete))
          ∙ last_id-snoc (before ++ init) l
          ∙ has)
        (λ _.
          option_taken (λ o. o ≡ some i) (last_id (fits size (init ++ (l ∷ [])))) _ _ i
            (ap last_id (map-append (fit_entry_for_transport size) init (l ∷ []))
              ∙ last_id-snoc (fits size init) (fit_entry_for_transport size l)
              ∙ entry_id-fit size l i has short)
            refl)
    where
      none_left :
          (length (fits size (init ++ (l ∷ []))) == length ((init ++ (l ∷ [])) ++ back)) ≡ true
          → back ≡ []
      none_left e = length-none back (
          omega (
            arith,
            (==_iff (length (fits size (init ++ (l ∷ [])))) (length ((init ++ (l ∷ [])) ++ back))).0
                e,
            length-map (fit_entry_for_transport size) (init ++ (l ∷ [])),
            length-append (init ++ (l ∷ [])) back,
          ))

      whole : back ≡ [] → before ++ ((init ++ (l ∷ [])) ++ back) ≡ (before ++ init) ++ (l ∷ [])
      whole e =
          ap (λ xs. before ++ ((init ++ (l ∷ [])) ++ xs)) e
          ∙ ap (λ xs. before ++ xs) (append-nil (init ++ (l ∷ [])))
          ∙ sym (append_assoc before init (l ∷ []))

  pub answer-first : answer none ≡ some (page_of size session.entries session.leaf_id budget)
  unfolding get_entries page_entries remaining_after
  answer-first = refl

  pub answer-after :
      (i : Text) (rest : List PortEntry)
      → after_entry session.entries i ≡ some rest
      → answer (some i) ≡ some (page_of size rest session.leaf_id budget)
  unfolding get_entries page_entries remaining_after
  answer-after i rest h =
      if_refused (λ o. o ≡ some (page_of size rest session.leaf_id budget))
        (option_else (after_entry session.entries i) true (λ _. false)) _
        (ap (λ o. option_else o true (λ _. false)) h)
        (ap
          (λ o.
            some (page_of size (option_else o session.entries (λ xs. xs)) session.leaf_id budget))
          h)

  -- Where the walk stands: what is left, and that its cursor is none of that.
  record At (since : Option Text) (before rest : List PortEntry) : Type 0 where
    whole : session.entries ≡ before ++ rest
    answers : answer since ≡ some (page_of size rest session.leaf_id budget)
    passed : All (λ e. entry_id e ≢ since) rest

  At-next :
      (before init back : List PortEntry) (l : PortEntry) (i : Text)
      → session.entries ≡ before ++ ((init ++ (l ∷ [])) ++ back)
      → Apart session.entries
      → entry_id l ≡ some i
      → At (some i) (before ++ (init ++ (l ∷ []))) back
  At-next before init back l i all apart has = record {
    whole = all ∙ sym (append_assoc before (init ++ (l ∷ [])) back);
    answers = answer-after i back (
        ap (λ xs. after_entry xs i) middle
        ∙ after_entry-middle (before ++ init) l back i has sides.0);
    passed = subst (λ o. All (λ e. entry_id e ≢ o) back) has sides.1;
  }
    where
      middle : session.entries ≡ (before ++ init) ++ (l ∷ back)
      middle =
          all
          ∙ ap (λ xs. before ++ xs) (append_assoc init (l ∷ []) back)
          ∙ sym (append_assoc before init (l ∷ back))

      sides : All (Other l) (before ++ init) × All (Other l) back
      sides = Apart-middle (before ++ init) l back (subst Apart middle apart)

  is_since-false : (since : Option Text) (i : Text) → some i ≢ since → is_since since i ≡ false
  is_since-false none i h = refl
  is_since-false (some j) i h = text_eq-false i j λ e. h (ap some e)

  -- The cursor of a page that ends in an entry.
  page_of-leaf :
      (before : List PortEntry) (e : PortEntry) (es init back : List PortEntry) (l : PortEntry)
      (i : Text)
      → session.entries ≡ before ++ (e ∷ es)
      → e ∷ es ≡ (init ++ (l ∷ [])) ++ back
      → (page_of size (e ∷ es) session.leaf_id budget).entries ≡ fits size (init ++ (l ∷ []))
      → session.leaf_id ≡ last_id session.entries
      → entry_id l ≡ some i
      → length i ≤ 256
      → (page_of size (e ∷ es) session.leaf_id budget).leaf_id ≡ some i
  unfolding page_of
  page_of-leaf before e es init back l i all split page leaf has short =
      ap (λ xs. page_leaf xs (e ∷ es) session.leaf_id) page
      ∙ ap (λ ys. page_leaf (fits size (init ++ (l ∷ []))) ys session.leaf_id) split
      ∙ page_leaf-last before init back l i (all ∙ ap (λ xs. before ++ xs) split) leaf has short

  -- One page of the walk, which ends in an entry: the walk goes on after it.
  page_step :
      (n : ℕ) (since : Option Text) (before : List PortEntry) (e : PortEntry)
      (es init back : List PortEntry) (l : PortEntry) (name : Named l)
      → At since before (e ∷ es)
      → e ∷ es ≡ (init ++ (l ∷ [])) ++ back
      → (page_of size (e ∷ es) session.leaf_id budget).entries ≡ fits size (init ++ (l ∷ []))
      → session.leaf_id ≡ last_id session.entries
      → walk_entries n answer (some name.id) ≡ fits size back
      → walk_entries (suc n) answer since ≡ fits size (e ∷ es)
  unfolding walk_entries
  page_step n since before e es init back l name at split page leaf later =
      option_taken (λ xs. xs ≡ fits size (e ∷ es)) (answer since) _ _
        (page_of size (e ∷ es) session.leaf_id budget) at.answers
        (ap (λ o. walk_on taken.entries (truthy o) since (walk_entries n answer (truthy o)))
            (page_of-leaf before e es init back l name.id at.whole split page leaf name.has
              name.short)
          ∙ ap (λ o. walk_on taken.entries o since (walk_entries n answer o)) name.full
          ∙ ap (λ xs. walk_on xs (some name.id) since (walk_entries n answer (some name.id)))
              first.1
          ∙ walk_on-more (fit_entry_for_transport size e) first.0 _ name.id since (
              is_since-false since name.id (
                other
                  (All-append (λ d. entry_id d ≢ since) (init ++ (l ∷ [])) back
                    (subst (All (λ d. entry_id d ≢ since)) split at.passed)).0))
          ∙ ap (λ xs. xs ++ walk_entries n answer (some name.id)) (sym first.1 ∙ page)
          ∙ ap (λ ys. fits size (init ++ (l ∷ [])) ++ ys) later
          ∙ sym (map-append (fit_entry_for_transport size) (init ++ (l ∷ [])) back)
          ∙ ap (fits size) (sym split))
    where
      taken : GetEntriesResult
      taken = page_of size (e ∷ es) session.leaf_id budget

      first : (ps : List PortEntry) × (taken.entries ≡ fit_entry_for_transport size e ∷ ps)
      first = page_of-some size e es session.leaf_id budget

      other : All (λ d. entry_id d ≢ since) (init ++ (l ∷ [])) → some name.id ≢ since
      other a same = (All-append (λ d. entry_id d ≢ since) init (l ∷ []) a).1.0 (name.has ∙ same)

  walk_rest :
      (n : ℕ) (since : Option Text) (before rest : List PortEntry)
      → At since before rest
      → length rest < n
      → session.leaf_id ≡ last_id session.entries
      → Apart session.entries
      → All Named session.entries
      → walk_entries n answer since ≡ fits size rest
  unfolding walk_entries
  walk_rest zero since before rest at short leaf apart named = absurd (omega arith)
  walk_rest (suc n) since before [] at short leaf apart named =
      option_taken (λ xs. xs ≡ []) (answer since) _ _ (page_of size [] session.leaf_id budget)
        at.answers (unfold page_of walk_on in refl)
  walk_rest (suc n) since before (e ∷ es) at short leaf apart named =
      let cut = page_of-Cut size (e ∷ es) session.leaf_id budget in
      let (init, (l, ends)) =
        front-view size e cut.front (page_of-some size e es session.leaf_id budget).0
          (sym cut.fitted ∙ (page_of-some size e es session.leaf_id budget).1) in
      let split = cut.split ∙ ap (λ xs. xs ++ cut.back) ends in
      let all = at.whole ∙ ap (λ xs. before ++ xs) split in
      let name =
        (All-append Named init (l ∷ [])
          (All-append Named (init ++ (l ∷ [])) cut.back
            (All-append Named before ((init ++ (l ∷ [])) ++ cut.back)
              (subst (All Named) all named)).1).0).1.0 in
      page_step n since before e es init cut.back l name at split (cut.fitted ∙ ap (fits size) ends)
        leaf
        (walk_rest n (some name.id) (before ++ (init ++ (l ∷ []))) cut.back
          (At-next before init cut.back l name.id all apart name.has)
          (shorter init l cut.back split) leaf apart named)
    where
      shorter :
          (init : List PortEntry) (l : PortEntry) (back : List PortEntry)
          → e ∷ es ≡ (init ++ (l ∷ [])) ++ back
          → length back < n
      shorter init l back split =
          let counts : length (e ∷ es) ≡ length ((init ++ (l ∷ [])) ++ back) = ap length split in
          omega (
            arith,
            short,
            counts,
            length-append (init ++ (l ∷ [])) back,
            length-append init (l ∷ []),
          )

  -- The walk of a client brings the whole transcript, each entry once and in order, fit for transport, and
  -- it ends by itself: if the entries have ids, no two the same, none empty or longer than 256 code units;
  -- the session's leaf is its last entry; and the client may ask for more pages than there are entries.
  pub walk_entries_complete :
      (max_pages : ℕ)
      → length session.entries < max_pages
      → session.leaf_id ≡ last_id session.entries
      → Apart session.entries
      → All Named session.entries
      → walk_entries max_pages (get_entries size (some session) budget) none
        ≡ map (fit_entry_for_transport size) session.entries
  walk_entries_complete max_pages short leaf apart named =
      walk_rest max_pages none [] session.entries
        (record { whole = refl; answers = answer-first; passed = all-named session.entries named })
        short leaf apart named
    where
      all-named : (es : List PortEntry) → All Named es → All (λ e. entry_id e ≢ none) es
      all-named [] a = tt
      all-named (e ∷ es) a = ((λ h. cc (a.0.has, h)), all-named es a.1)
