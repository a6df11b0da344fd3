-- ===== src/Context/Validity.antt =====
-- `compile_context` builds a manifest that its own contracts accept.
mod Uniqueness
use Uniqueness.{
  is_unique_of_occurrences, occurrences-map, not_held, all_rows_of_All, all_rows_disjoint,
}
use oscillink_agent.Base.{
  ℕ, suc, ◌+◌, ◌≤◌, ◌<◌, ◌≡◌, ◌⊎◌, inl, inr, refl, String, Bool, true, false, ◌&&◌, List, [], ◌∷◌,
  ◌++◌, arith, All, All-append, All-map, length, map, not, holds, string_eq, ltb, Bool-cases, ok,
  err, Result, is_unique,
}
use oscillink_agent.Domain.Identifiers.{codes, is_record_id, is_digest, is_context_id, is_task_id}
use oscillink_agent.Domain.Vocabulary.{max_integer}
use oscillink_agent.Memory.Types.{MemoryRecord}
use oscillink_agent.Retrieval.{Evidence, Retrieval}
use oscillink_agent.Retrieval.Sorting.{occurrences, occurrences-append}
use oscillink_agent.Retrieval.Partition.{record_id, evidence_id}
use oscillink_agent.Context.{
  Item, item_eq, Omission, Manifest, token_count, sum_tokens, all_rows, is_valid_item,
  is_valid_omission, is_valid_manifest, item_ids, omission_ids,
}
use oscillink_agent.Context.Compiler.{
  Chosen, Selection, nothing_selected, over_budget, unmatched_omission, choose, choose_all, item_of,
  CompileRequest, manifest_of, compile_context, validation_error,
}
use oscillink_agent.Context.Accounting.{
  chosen_id, omission_id, chosen_tokens, IsBudgeted, choose_all-IsBudgeted, handled-choose_all,
}

-- Evidence whose record meets the constraints of a context item.
pub record IsAcceptable (e : Evidence) : Type 0 where
  pub named : is_record_id e.memory.id ≡ true
  pub hashed : is_digest e.memory.content_hash ≡ true
  pub titled : 1 ≤ length (codes e.memory.title)
  pub title_fits : length (codes e.memory.title) ≤ 512
  pub domains_fit : length e.memory.domains ≤ 16
  pub ranked : 1 ≤ e.rank
  pub rank_fits : e.rank ≤ max_integer
  pub scored : 1 ≤ e.score
  pub score_fits : e.score ≤ max_integer

-- An unmatched record that an omission can cite.
pub record IsCitable (r : MemoryRecord) : Type 0 where
  pub named : is_record_id r.id ≡ true
  pub hashed : is_digest r.content_hash ≡ true

pub record IsCompilable (retrieval : Retrieval) : Type 0 where
  pub acceptable : All IsAcceptable retrieval.ranked
  pub citable : All IsCitable retrieval.unmatched
  pub distinct :
      (id : String)
      → occurrences evidence_id id retrieval.ranked + occurrences record_id id retrieval.unmatched
        ≤ 1

pub record IsRequest (q : CompileRequest) : Type 0 where
  pub context_named : is_context_id q.context_id ≡ true
  pub task_named : is_task_id q.task_id ≡ true
  pub positive : 1 ≤ q.token_budget
  pub bounded : q.token_budget ≤ max_integer
  pub policy : is_digest q.policy_hash ≡ true

module _ (budget : ℕ) (bounded : budget ≤ max_integer) where
  -- A selection of acceptable evidence, with omissions that are valid.
  record IsGood (a : Selection) : Type 0 where
    items : All (λ c. is_valid_item (item_of c) ≡ true) a.selected
    omissions : All (λ o. is_valid_omission o ≡ true) a.omissions

  item_of-valid :
      (e : Evidence) (tokens : ℕ)
      → IsAcceptable e
      → tokens ≤ budget
      → is_valid_item (item_of (record { evidence = e; tokens = tokens })) ≡ true
  unfolding is_valid_item item_of is_unique all_rows
  item_of-valid e tokens h t = ground arith

  over_budget-valid : (e : Evidence) → IsAcceptable e → is_valid_omission (over_budget e) ≡ true
  unfolding is_valid_omission over_budget
  over_budget-valid e h = ground arith

  choose-IsGood :
      (e : Evidence) (a : Selection) → IsAcceptable e → IsGood a → IsGood (choose budget e a)
  unfolding choose
  choose-IsGood e a h g =
      let t = token_count e.memory.content in
      elim (Bool-cases (ltb budget (a.total + t))) [
        | inl over ↦ rw over (record {
          items = g.items;
          omissions =
              All-append (λ o. is_valid_omission o ≡ true) a.omissions (over_budget e ∷ [])
                g.omissions (over_budget-valid e h, tt);
        })
        | inr fits ↦ rw fits (record {
          items =
              All-append (λ c. is_valid_item (item_of c) ≡ true) a.selected
                (record { evidence = e; tokens = t } ∷ []) g.items
                (item_of-valid e t h (ground arith), tt);
          omissions = g.omissions;
        })
      ]

  choose_all-IsGood :
      (es : List Evidence) (a : Selection)
      → All IsAcceptable es
      → IsGood a
      → IsGood (choose_all budget es a)
  unfolding choose_all
  choose_all-IsGood [] a h g = g
  choose_all-IsGood (e ∷ es) a h g =
      choose_all-IsGood es (choose budget e a) h.1 (choose-IsGood e a h.0 g)

unmatched-valid : (r : MemoryRecord) → IsCitable r → is_valid_omission (unmatched_omission r) ≡ true
unfolding is_valid_omission unmatched_omission
unmatched-valid r h = ground arith

All-rows_map :
    {A B : Type 0} (P : A → Type 0) (p : B → Bool) (g : A → B) (xs : List A)
    → ((x : A) → P x → p (g x) ≡ true)
    → All P xs
    → All (λ y. p y ≡ true) (map g xs)
All-rows_map P p g [] f h = tt
All-rows_map P p g (x ∷ xs) f h = (f x h.0, All-rows_map P p g xs f h.1)

sum_tokens-item_of : (cs : List Chosen) → sum_tokens (map item_of cs) ≡ chosen_tokens cs
unfolding sum_tokens chosen_tokens item_of
sum_tokens-item_of [] = refl
sum_tokens-item_of (c ∷ cs) = omega (arith, sum_tokens-item_of cs)

module _ (retrieval : Retrieval) (q : CompileRequest) (good : IsCompilable retrieval)
    (request : IsRequest q) where
  abbrev chosen : Selection
  chosen = choose_all q.token_budget retrieval.ranked nothing_selected

  abbrev built : Manifest
  built = manifest_of q retrieval chosen

  -- Each identity occurs once among the items and the omissions.
  once :
      (id : String)
      → occurrences (λ i. i.record_id) id built.items
          + occurrences (λ s. s) id (omission_ids built.omissions)
        ≤ 1
  unfolding manifest_of item_of unmatched_omission occurrences
  once id =
      let late = map unmatched_omission retrieval.unmatched in
      omega (
        arith,
        occurrences-map item_of (λ i. i.record_id) id chosen.selected,
        occurrences-map omission_id (λ s. s) id (chosen.omissions ++ late),
        occurrences-append omission_id id chosen.omissions late,
        occurrences-map unmatched_omission omission_id id retrieval.unmatched,
        handled-choose_all q.token_budget id retrieval.ranked nothing_selected,
        good.distinct id,
      )

  chosen-IsBudgeted : IsBudgeted q.token_budget chosen
  chosen-IsBudgeted =
      choose_all-IsBudgeted q.token_budget retrieval.ranked nothing_selected
        (record { within = omega arith; counted = unfold chosen_tokens in refl })

  chosen-IsGood : IsGood q.token_budget request.bounded chosen
  chosen-IsGood =
      choose_all-IsGood q.token_budget request.bounded retrieval.ranked nothing_selected
        good.acceptable (record { items = tt; omissions = tt })

  items_unique : is_unique built.items ≡ true
  items_unique =
      is_unique_of_occurrences (λ i. i.record_id) built.items (λ id. omega (arith, once id))

  omissions_unique : is_unique (omission_ids built.omissions) ≡ true
  omissions_unique =
      is_unique_of_occurrences (λ s. s) (omission_ids built.omissions)
        (λ id. omega (arith, once id))

  apart :
      all_rows (λ id. not (holds (omission_ids built.omissions) id)) (item_ids built.items) ≡ true
  apart = all_rows_disjoint (λ i. i.record_id) (omission_ids built.omissions) built.items once

  items_valid : all_rows is_valid_item built.items ≡ true
  unfolding manifest_of
  items_valid = all_rows_of_All is_valid_item built.items (
      All-rows_map (λ c. is_valid_item (item_of c) ≡ true) is_valid_item item_of chosen.selected
        (λ c h. h) chosen-IsGood.items)

  omissions_valid : all_rows is_valid_omission built.omissions ≡ true
  unfolding manifest_of
  omissions_valid = all_rows_of_All is_valid_omission built.omissions (
      All-append (λ o. is_valid_omission o ≡ true) chosen.omissions
        (map unmatched_omission retrieval.unmatched) chosen-IsGood.omissions
        (All-rows_map IsCitable is_valid_omission unmatched_omission retrieval.unmatched
          unmatched-valid good.citable))

  -- The validators accept what `compile_context` builds.
  manifest_valid : is_valid_manifest built ≡ true
  unfolding is_valid_manifest manifest_of
  manifest_valid = ground (
    arith,
    items_valid,
    omissions_valid,
    items_unique,
    omissions_unique,
    apart,
    chosen-IsBudgeted.within,
    chosen-IsBudgeted.counted,
    sum_tokens-item_of chosen.selected,
    request.context_named,
    request.task_named,
    request.positive,
    request.bounded,
    request.policy,
  )

  -- On evidence that a context can cite, each record once, and a request within its bounds, the
  -- compilation cannot fail: its manifest passes every constraint and validator of the contract,
  -- and its records are those that it selected.
  pub compile_succeeds :
      compile_context retrieval q
      ≡ ok (
        manifest_of q retrieval (choose_all q.token_budget retrieval.ranked nothing_selected),
        map
            (λ c. c.evidence.memory)
            (choose_all q.token_budget retrieval.ranked nothing_selected).selected,
      )
  unfolding compile_context
  compile_succeeds = rw manifest_valid refl
