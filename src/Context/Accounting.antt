-- ===== src/Context/Accounting.antt =====
-- The greedy selection: it stays in the budget, accounts for all evidence and is maximal.
use oscillink_agent.Base.{
  ℕ, ◌+◌, ◌≤◌, ◌<◌, ◌≡◌, ◌⊎◌, inl, inr, String, List, [], ◌∷◌, ◌++◌, arith, Occurs,
  Occurs-append_left, Occurs-append_last,
}
use oscillink_agent.Retrieval.{Evidence}
use oscillink_agent.Retrieval.Sorting.{occurrences, occurrences-append}
use oscillink_agent.Retrieval.Partition.{evidence_id}
use oscillink_agent.Context.{Omission, token_count}
use oscillink_agent.Context.Compiler.{Chosen, Selection, over_budget, choose, choose_all}

abbrev pub chosen_id : Chosen → String
chosen_id c = c.evidence.memory.id

abbrev pub omission_id : Omission → String
omission_id o = o.record_id

-- The tokens of what is selected.
unfoldable pub chosen_tokens : List Chosen → ℕ
chosen_tokens [] = 0
chosen_tokens (c ∷ cs) = c.tokens + chosen_tokens cs

chosen_tokens-append :
    (cs : List Chosen) (c : Chosen) → chosen_tokens (cs ++ c ∷ []) ≡ chosen_tokens cs + c.tokens
unfolding chosen_tokens
chosen_tokens-append [] c = omega arith
chosen_tokens-append (x ∷ cs) c = omega (arith, chosen_tokens-append cs c)

module _ (budget : ℕ) where
  -- The running total is the tokens of what is selected, and in the budget.
  pub record IsBudgeted (a : Selection) : Type 0 where
    pub within : a.total ≤ budget
    pub counted : chosen_tokens a.selected ≡ a.total

  choose-IsBudgeted : (e : Evidence) (a : Selection) → IsBudgeted a → IsBudgeted (choose budget e a)
  unfolding choose
  choose-IsBudgeted e a h = ground (
    arith,
    chosen_tokens-append a.selected
        (record { evidence = e; tokens = token_count e.memory.content }),
  )

  -- From a selection whose running total is its tokens and in the budget, the greedy selection leads
  -- to one of which that holds.
  pub choose_all-IsBudgeted :
      (es : List Evidence) (a : Selection) → IsBudgeted a → IsBudgeted (choose_all budget es a)
  unfolding choose_all
  choose_all-IsBudgeted [] a h = h
  choose_all-IsBudgeted (e ∷ es) a h =
      choose_all-IsBudgeted es (choose budget e a) (choose-IsBudgeted e a h)

  -- The total never falls.
  total-choose : (e : Evidence) (a : Selection) → a.total ≤ (choose budget e a).total
  unfolding choose
  total-choose e a = ground arith

  total-choose_all : (es : List Evidence) (a : Selection) → a.total ≤ (choose_all budget es a).total
  unfolding choose_all
  total-choose_all [] a = omega arith
  total-choose_all (e ∷ es) a =
      omega (arith, total-choose e a, total-choose_all es (choose budget e a))

  -- Each identity is selected or omitted as often as it is given.
  abbrev pub handled : String → Selection → ℕ
  handled id a = occurrences chosen_id id a.selected + occurrences omission_id id a.omissions

  handled-choose :
      (id : String) (e : Evidence) (a : Selection)
      → handled id (choose budget e a) ≡ handled id a + occurrences evidence_id id (e ∷ [])
  unfolding choose over_budget occurrences
  handled-choose id e a = ground (
    arith,
    occurrences-append omission_id id a.omissions (over_budget e ∷ []),
    occurrences-append chosen_id id a.selected
        (record { evidence = e; tokens = token_count e.memory.content } ∷ []),
  )

  -- The greedy selection adds to what is selected or omitted each identity as often as the evidence
  -- names it.
  pub handled-choose_all :
      (id : String) (es : List Evidence) (a : Selection)
      → handled id (choose_all budget es a) ≡ handled id a + occurrences evidence_id id es
  unfolding choose_all occurrences
  handled-choose_all id [] a = omega arith
  handled-choose_all id (e ∷ es) a =
      omega (arith, handled-choose_all id es (choose budget e a), handled-choose id e a)

  -- The evidence is selected with its token count.
  abbrev IsChosen : Evidence → Selection → Type 0
  IsChosen e a = Occurs (record { evidence = e; tokens = token_count e.memory.content }) a.selected

  choose-IsChosen : (e f : Evidence) (a : Selection) → IsChosen f a → IsChosen f (choose budget e a)
  unfolding choose
  choose-IsChosen e f a h = ground (
    arith,
    Occurs-append_left (record { evidence = f; tokens = token_count f.memory.content }) a.selected
        (record { evidence = e; tokens = token_count e.memory.content } ∷ []),
  )

  choose_all-IsChosen :
      (es : List Evidence) (f : Evidence) (a : Selection)
      → IsChosen f a
      → IsChosen f (choose_all budget es a)
  unfolding choose_all
  choose_all-IsChosen [] f a h = h
  choose_all-IsChosen (e ∷ es) f a h =
      choose_all-IsChosen es f (choose budget e a) (choose-IsChosen e f a h)

  choose-cases :
      (e : Evidence) (a : Selection)
      → IsChosen e (choose budget e a) ⊎ (budget < a.total + token_count e.memory.content)
  unfolding choose
  choose-cases e a = ground (
    arith,
    Occurs-append_last (record { evidence = e; tokens = token_count e.memory.content }) a.selected,
  )

  -- Evidence that is given is selected with its token count, or would not fit in the budget beside
  -- everything that is selected in the end.
  pub choose_all_maximal :
      (es : List Evidence) (a : Selection) (e : Evidence)
      → Occurs e es
      → IsChosen e (choose_all budget es a)
        ⊎ (budget < (choose_all budget es a).total + token_count e.memory.content)
  unfolding choose_all
  choose_all_maximal [] a e o = absurd o
  choose_all_maximal (f ∷ es) a e (inl same) = elim (choose-cases e a) [
    | inl h ↦ inl (choose_all-IsChosen es e (choose budget f a) (rw (← same) h))
    | inr h ↦ inr (omega (arith, total-choose f a, total-choose_all es (choose budget f a)))
  ]
  choose_all_maximal (f ∷ es) a e (inr o) = choose_all_maximal es (choose budget f a) e o
