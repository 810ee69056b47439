-- ===== src/Rpc/Pages.antt =====
-- Pages of a transcript: `pageEntries`, the `getEntries` of the handlers, and the client's walk.
use un_bien.Prelude.{
  ℕ, zero, suc, ◌+◌, Bool, true, false, ◌&&◌, Option, none, some, List, [], ◌∷◌, ◌++◌, Text,
  text_eq, if◌then◌else◌, ltb, ◌==◌, option_else, length, truthy,
}
use un_bien.Json.{Value}
use un_bien.Rpc.Fitting.{PortEntry, entry_id, fit_entry_for_transport}

pub record GetEntriesResult : Type 0 where
  pub entries : List PortEntry
  pub leaf_id : Option Text

abbrev pub get_entries_page_budget_bytes : ℕ
get_entries_page_budget_bytes = 5242880

abbrev pub has_id : Text → PortEntry → Bool
has_id since entry = option_else (entry_id entry) false (λ i. text_eq i since)

-- What follows the first entry with the id, if there is one.
unfoldable pub after_entry : List PortEntry → Text → Option (List PortEntry)
unfolding entry_id
after_entry [] since = none
after_entry (e ∷ rest) since =
    let later = after_entry rest since in if has_id since e then some rest else later

unfoldable pub remaining_after : List PortEntry → Option Text → List PortEntry
unfolding after_entry
remaining_after entries none = entries
remaining_after entries (some since) =
    option_else (after_entry entries since) entries (λ rest. rest)

-- The id of the last of the entries.
unfoldable pub last_id : List PortEntry → Option Text
unfolding entry_id
last_id [] = none
last_id (e ∷ []) = entry_id e
last_id (e ∷ f ∷ rest) = last_id (f ∷ rest)

abbrev pub page_leaf : List PortEntry → List PortEntry → Option Text → Option Text
page_leaf page remaining leaf =
    if length page == length remaining then leaf else option_else (last_id page) leaf some

module _ (size : Value → ℕ) where
  -- The entries that a page takes, with the bytes that are used so far: once it has one, the page
  -- ends before the entry that would take it past the budget.
  unfoldable pub take_page : ℕ → ℕ → Bool → List PortEntry → List PortEntry
  unfolding fit_entry_for_transport
  take_page budget used started [] = []
  take_page budget used started (e ∷ rest) =
      let fitted = fit_entry_for_transport size e in
      let more = take_page budget (used + size fitted) true rest in
      if started && ltb budget (used + size fitted) then [] else fitted ∷ more

  unfoldable pub page_of : List PortEntry → Option Text → ℕ → GetEntriesResult
  unfolding take_page last_id
  page_of [] leaf budget = record { entries = []; leaf_id = leaf }
  page_of (e ∷ rest) leaf budget =
      let page = take_page budget 0 false (e ∷ rest) in
      record { entries = page; leaf_id = page_leaf page (e ∷ rest) leaf }

  unfoldable pub page_entries : List PortEntry → Option Text → Option Text → ℕ → GetEntriesResult
  unfolding page_of remaining_after
  page_entries entries since leaf budget = page_of (remaining_after entries since) leaf budget

  abbrev is_missing : List PortEntry → Option Text → Bool
  is_missing entries none = false
  is_missing entries (some since) = option_else (after_entry entries since) true (λ rest. false)

  -- The handler, or nothing where it throws: no session is bound, or the id is unknown.
  unfoldable pub get_entries : Option GetEntriesResult → ℕ → Option Text → Option GetEntriesResult
  unfolding page_entries after_entry
  get_entries none budget since = none
  get_entries (some session) budget since =
      if is_missing session.entries since
      then none
      else some (page_entries session.entries since session.leaf_id budget)

-- `leaf === since`
abbrev pub is_since : Option Text → Text → Bool
is_since none leaf = false
is_since (some since) leaf = text_eq leaf since

unfoldable pub walk_on :
    List PortEntry → Option Text → Option Text → List PortEntry → List PortEntry
walk_on [] leaf since more = []
walk_on (e ∷ page) none since more = []
walk_on (e ∷ page) (some leaf) since more =
    if is_since since leaf then e ∷ page else (e ∷ page) ++ more

-- The client's walk, of at most so many pages, over what a session answers: a page, or nothing where
-- the request fails or times out.
unfoldable pub walk_entries :
    ℕ → (Option Text → Option GetEntriesResult) → Option Text → List PortEntry
unfolding walk_on
walk_entries zero answer since = []
walk_entries (suc pages) answer since = option_else (answer since) [] λ (r : GetEntriesResult).
    walk_on r.entries (truthy r.leaf_id) since (walk_entries pages answer (truthy r.leaf_id))

abbrev pub default_max_pages : ℕ
default_max_pages = 200
