-- ===== src/Rpc/Cutting.antt =====
-- What one page takes of the entries that are left.
use un_bien.Prelude.{
  ◌≡◌, refl, ap, ◌⊎◌, inl, inr, ℕ, ◌+◌, ◌≤◌, Bool, true, false, ◌&&◌, Option, List, [], ◌∷◌, ◌++◌,
  Text, arith, if_elim, Bool-cases, ltb, length, map,
}
use un_bien.Json.{Value}
use un_bien.Rpc.Fitting.{PortEntry, fit_entry_for_transport}
use un_bien.Rpc.Pages.{take_page, page_of, page_entries, remaining_after}

module _ (size : Value → ℕ) where
  abbrev pub fits : List PortEntry → List PortEntry
  fits = map (fit_entry_for_transport size)

  -- The bytes of all of the entries.
  abbrev pub total : List PortEntry → ℕ
  total [] = 0
  total (e ∷ es) = size e + total es

  -- The page is the first of the entries, fit for transport.
  pub record Cut (entries page : List PortEntry) : Type 0 where
    pub front : List PortEntry
    pub back : List PortEntry
    pub split : entries ≡ front ++ back
    pub fitted : page ≡ fits front

  take_page-Cut :
      (budget used : ℕ) (started : Bool) (entries : List PortEntry)
      → Cut entries (take_page size budget used started entries)
  unfolding take_page
  take_page-Cut budget used started [] = record {
    front = [];
    back = [];
    split = refl;
    fitted = refl;
  }
  take_page-Cut budget used started (e ∷ es) =
      let s = size (fit_entry_for_transport size e) in
      let more = take_page-Cut budget (used + s) true es in
      if_elim (Cut (e ∷ es)) (started && ltb budget (used + s))
        (λ _. record { front = []; back = e ∷ es; split = refl; fitted = refl })
        (λ _. record {
          front = e ∷ more.front;
          back = more.back;
          split = ap (λ xs. e ∷ xs) more.split;
          fitted = ap (λ xs. fit_entry_for_transport size e ∷ xs) more.fitted;
        })

  -- Once the page has an entry, the budget holds.
  take_page-within :
      (budget used : ℕ) (entries : List PortEntry)
      → used ≤ budget
      → used + total (take_page size budget used true entries) ≤ budget
  unfolding take_page
  take_page-within budget used [] h = omega arith
  take_page-within budget used (e ∷ es) h =
      ground (arith, take_page-within budget (used + size (fit_entry_for_transport size e)) es)

  -- A page that is past the budget ends there.
  take_page_full :
      (budget used : ℕ) (entries : List PortEntry)
      → ltb budget used ≡ true
      → take_page size budget used true entries ≡ []
  unfolding take_page
  take_page_full budget used [] h = refl
  take_page_full budget used (e ∷ es) h = ground arith

  pub page_of-Cut :
      (entries : List PortEntry) (leaf : Option Text) (budget : ℕ)
      → Cut entries (page_of size entries leaf budget).entries
  unfolding page_of
  page_of-Cut [] leaf budget = record { front = []; back = []; split = refl; fitted = refl }
  page_of-Cut (e ∷ es) leaf budget = take_page-Cut budget 0 false (e ∷ es)

  page_of-within :
      (entries : List PortEntry) (leaf : Option Text) (budget : ℕ)
      → (total (page_of size entries leaf budget).entries ≤ budget)
        ⊎ (length (page_of size entries leaf budget).entries ≡ 1)
  unfolding page_of take_page
  page_of-within [] leaf budget = inl (omega arith)
  page_of-within (e ∷ es) leaf budget =
      let s = size (fit_entry_for_transport size e) in
      elim (Bool-cases (ltb budget (0 + s))) [
        | inl past ↦ inr (
            ap (λ xs. length (fit_entry_for_transport size e ∷ xs))
              (take_page_full budget (0 + s) es past))
        | inr fits ↦ inl (omega (arith, take_page-within budget (0 + s) es (ground arith)))
      ]

  pub page_of-some :
      (e : PortEntry) (es : List PortEntry) (leaf : Option Text) (budget : ℕ)
      → (page : List PortEntry) × ((page_of size (e ∷ es) leaf budget).entries
          ≡ fit_entry_for_transport size e ∷ page)
  unfolding page_of take_page
  page_of-some e es leaf budget =
      (take_page size budget (0 + size (fit_entry_for_transport size e)) true es, refl)

  -- A page is the first of the entries that are left after the cursor, each fit for transport; it is empty
  -- only if none are left; and it stays within the budget of bytes, unless it is a single entry.
  pub page_entries-Cut :
      (entries : List PortEntry) (since leaf : Option Text) (budget : ℕ)
      → Cut (remaining_after entries since) (page_entries size entries since leaf budget).entries
        × (((page_entries size entries since leaf budget).entries ≡ []
              → remaining_after entries since ≡ [])
            × ((total (page_entries size entries since leaf budget).entries ≤ budget)
                ⊎ (length (page_entries size entries since leaf budget).entries ≡ 1)))
  unfolding page_entries
  page_entries-Cut entries since leaf budget = (
    page_of-Cut (remaining_after entries since) leaf budget,
    (
      empty (remaining_after entries since),
      page_of-within (remaining_after entries since) leaf budget,
    ),
  )
    where
      empty : (rest : List PortEntry) → (page_of size rest leaf budget).entries ≡ [] → rest ≡ []
      empty [] h = refl
      empty (e ∷ es) h = absurd (cc ((page_of-some e es leaf budget).1, h))
