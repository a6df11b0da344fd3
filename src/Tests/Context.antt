-- ===== src/Tests/Context.antt =====
-- The theorems about context compilation, applied.
use oscillink_agent.Base.{
  ℕ, ◌+◌, ◌≡◌, ◌≢◌, ap, false, ◌≤◌, ◌<◌, ◌⊎◌, inl, inr, refl, arith, String, true, some, List, [],
  ◌∷◌, length, map, All, Occurs, ok, err, string_discrete, Bool-cases, ◌==◌, string_eq,
}
use oscillink_agent.Memory.Types.{approved, science}
use oscillink_agent.Retrieval.{Evidence, Retrieval}
use oscillink_agent.Retrieval.Sorting.{occurrences}
use oscillink_agent.Retrieval.Partition.{evidence_id, record_id}
use oscillink_agent.Context.{token_count}
use oscillink_agent.Context.Compiler.{
  Chosen, Selection, nothing_selected, choose_all, CompileRequest, manifest_of, compile_context,
  validation_error,
}
use oscillink_agent.Context.Accounting.{
  chosen_tokens, IsBudgeted, choose_all-IsBudgeted, choose_all_maximal,
}
use oscillink_agent.Context.Validity.{IsAcceptable, IsCompilable, compile_succeeds}
use oscillink_agent.Context.Failures.{oversized_domains_fail}
use oscillink_agent.Tests.{request, request-IsRequest, ids_differ, first_id, second_id, sample}

abbrev sun : Evidence
sun = record { memory = sample first_id approved "sun" "solar cells"; rank = 1; score = 2 }

abbrev roof : Evidence
roof = record { memory = sample second_id approved "roof" "solar roof tiles"; rank = 2; score = 1 }

abbrev found : Retrieval
found = record {
  ranked = sun ∷ roof ∷ [];
  unmatched = [];
  exclusions = record { not_approved = 0; missing_source = 0; superseded_count = 0; conflict = 0 };
}

sun-IsAcceptable : IsAcceptable sun
unfolding oscillink_agent.Domain.Identifiers.is_record_id oscillink_agent.Base.ℕ_discrete
    oscillink_agent.Domain.Identifiers.is_digest
sun-IsAcceptable = record {
  named = refl;
  hashed = refl;
  titled = omega arith;
  title_fits = omega arith;
  domains_fit = omega arith;
  ranked = omega arith;
  rank_fits = omega arith;
  scored = omega arith;
  score_fits = omega arith;
}

roof-IsAcceptable : IsAcceptable roof
unfolding oscillink_agent.Domain.Identifiers.is_record_id oscillink_agent.Base.ℕ_discrete
    oscillink_agent.Domain.Identifiers.is_digest
roof-IsAcceptable = record {
  named = refl;
  hashed = refl;
  titled = omega arith;
  title_fits = omega arith;
  domains_fit = omega arith;
  ranked = omega arith;
  rank_fits = omega arith;
  scored = omega arith;
  score_fits = omega arith;
}

found-distinct :
    (id : String)
    → occurrences evidence_id id found.ranked + occurrences record_id id found.unmatched ≤ 1
unfolding occurrences
found-distinct id = ground (arith, ids_differ)

found-IsCompilable : IsCompilable found
found-IsCompilable = record {
  acceptable = (sun-IsAcceptable, (roof-IsAcceptable, tt));
  citable = tt;
  distinct = found-distinct;
}

compile_succeeds_example :
    compile_context found request
    ≡ ok (
      manifest_of request found (choose_all 4 found.ranked nothing_selected),
      map (λ c. c.evidence.memory) (choose_all 4 found.ranked nothing_selected).selected,
    )
compile_succeeds_example = compile_succeeds found request found-IsCompilable request-IsRequest

nothing-IsBudgeted : IsBudgeted 4 nothing_selected
unfolding chosen_tokens
nothing-IsBudgeted = record { within = omega arith; counted = refl }

choose_all-IsBudgeted_example : IsBudgeted 4 (choose_all 4 found.ranked nothing_selected)
choose_all-IsBudgeted_example =
    choose_all-IsBudgeted 4 found.ranked nothing_selected nothing-IsBudgeted

choose_all_maximal_example :
    Occurs
      (record { evidence = roof; tokens = token_count roof.memory.content })
      (choose_all 4 found.ranked nothing_selected).selected
    ⊎ (4 < (choose_all 4 found.ranked nothing_selected).total + token_count roof.memory.content)
choose_all_maximal_example =
    choose_all_maximal 4 found.ranked nothing_selected roof (inr (inl refl))

-- Evidence of seventeen domains.
abbrev wide : Evidence
wide = record sun {
  memory = record sun.memory {
    domains =
        science ∷ science ∷ science ∷ science ∷ science ∷ science ∷ science ∷ science ∷ science
        ∷ science ∷ science ∷ science ∷ science ∷ science ∷ science ∷ science ∷ science ∷ [];
  };
}

abbrev wide_found : Retrieval
wide_found = record found { ranked = wide ∷ [] }

wide_selected :
    Occurs
      (record { evidence = wide; tokens = 2 })
      (choose_all 4 wide_found.ranked nothing_selected).selected
unfolding choose_all oscillink_agent.Context.Compiler.choose token_count
    oscillink_agent.Base.ℕ_discrete
wide_selected = inl refl

oversized_domains_fail_example : compile_context wide_found request ≡ err validation_error
oversized_domains_fail_example =
    oversized_domains_fail wide_found request (record { evidence = wide; tokens = 2 }) wide_selected
      (omega arith)
