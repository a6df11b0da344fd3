-- ===== src/Context/Failures.antt =====
-- Where `compile_context` fails: a record is stored under weaker constraints than a context item's.
use oscillink_agent.Base.{◌<◌, ◌≡◌, inl, inr, false, List, [], ◌∷◌, arith, Occurs, length, map, err}
use oscillink_agent.Retrieval.{Retrieval}
use oscillink_agent.Context.{all_rows, is_valid_item, is_valid_manifest}
use oscillink_agent.Context.Compiler.{
  Chosen, nothing_selected, choose_all, item_of, CompileRequest, manifest_of, compile_context,
  validation_error,
}

item_refused :
    (c : Chosen) → 16 < length c.evidence.memory.domains → is_valid_item (item_of c) ≡ false
unfolding is_valid_item item_of
item_refused c h = ground arith

rows_refused :
    (cs : List Chosen) (c : Chosen)
    → Occurs c cs
    → is_valid_item (item_of c) ≡ false
    → all_rows is_valid_item (map item_of cs) ≡ false
unfolding all_rows
rows_refused [] c o h = absurd o
rows_refused (x ∷ cs) c (inl e) h = let k : is_valid_item (item_of x) ≡ false = cc in ground arith
rows_refused (x ∷ cs) c (inr o) h = ground (arith, rows_refused cs c o h)

-- Evidence of more than sixteen domains that is selected makes the whole compilation fail, though
-- a stored record may have any number of domains.
pub oversized_domains_fail :
    (retrieval : Retrieval) (q : CompileRequest) (c : Chosen)
    → Occurs c (choose_all q.token_budget retrieval.ranked nothing_selected).selected
    → 16 < length c.evidence.memory.domains
    → compile_context retrieval q ≡ err validation_error
unfolding compile_context is_valid_manifest manifest_of
oversized_domains_fail retrieval q c o h =
    let a = choose_all q.token_budget retrieval.ranked nothing_selected in
    ground (arith, rows_refused a.selected c o (item_refused c h))
