-- ===== src/Projection/Filters.antt =====
-- How the filters of `project_product_nodes` divide the records (memory/projection.py).
use oscillink_agent.Base.{
  ℕ, ◌+◌, ◌≡◌, refl, sym, ap, ◌∙◌, String, Bool, true, false, ◌&&◌, Option, none, some, List, [],
  ◌∷◌, map, arith, select, length, ◌==◌,
}
use oscillink_agent.Memory.Types.{
  Category, research, tooling, project, experiment, governance, reference, note, Domain,
  MemoryRecord, category_eq, domain_eq, category_discrete,
}
use oscillink_agent.Projection.{
  summarize_product, is_of_category, is_of_domain, is_selected, project_product_nodes,
}

-- The number of a collection's nodes, added up over the categories.
abbrev pub count_by_category : (Category → ℕ) → ℕ
count_by_category f =
    f research + f tooling + f project + f experiment + f governance + f reference + f note

abbrev selected_count : List MemoryRecord → Option Domain → Option Category → ℕ
selected_count rs d c = length (select (is_selected c d) rs)

abbrev number : Bool → ℕ
number true = 1
number false = 0

-- A category counts a record once.
counts_once :
    (k : Category) (b : Bool) (f : Category → ℕ)
    → count_by_category (λ c. number (k == c && b) + f c) ≡ number b + count_by_category f
unfolding category_discrete
counts_once research b f = omega arith
counts_once tooling b f = omega arith
counts_once project b f = omega arith
counts_once experiment b f = omega arith
counts_once governance b f = omega arith
counts_once reference b f = omega arith
counts_once note b f = omega arith

selected_count-step :
    (r : MemoryRecord) (rs : List MemoryRecord) (d : Option Domain) (c : Option Category)
    → selected_count (r ∷ rs) d c ≡ number (is_selected c d r) + selected_count rs d c
unfolding select
selected_count-step r rs d c = ground arith

counts-sum :
    (rs : List MemoryRecord) (d : Option Domain)
    → count_by_category (λ c. selected_count rs d (some c)) ≡ selected_count rs d none
unfolding select is_of_category
counts-sum [] d = refl
counts-sum (r ∷ rs) d =
    (λ i. count_by_category (λ c. selected_count-step r rs d (some c) i))
    ∙ counts_once r.category (is_of_domain d r.domains) (λ c. selected_count rs d (some c))
    ∙ ap (λ n. number (is_of_domain d r.domains) + n) (counts-sum rs d)
    ∙ sym (selected_count-step r rs d none)

-- Filtering the nodes by their category is filtering the records.
nodes-select :
    (rs : List MemoryRecord) (d : Option Domain) (c : Category)
    → map summarize_product (select (is_selected (some c) d) rs)
      ≡ select (λ n. n.category == c) (map summarize_product (select (is_selected none d) rs))
unfolding select is_of_category
nodes-select [] d c = refl
nodes-select (r ∷ rs) d c = ground (arith, nodes-select rs d c)

-- The collections of the seven categories divide the collection without a category: their counts
-- add up to its count, and the nodes of each are its nodes of that category, in its order.
pub project_product_nodes-divides :
    (hash : List MemoryRecord → String) (rs : List MemoryRecord) (d : Option Domain)
    → (count_by_category (λ c. (project_product_nodes hash rs (some c) d).count)
        ≡ (project_product_nodes hash rs none d).count)
      × ((c : Category)
          → (project_product_nodes hash rs (some c) d).nodes
            ≡ select (λ n. n.category == c) (project_product_nodes hash rs none d).nodes)
unfolding project_product_nodes
project_product_nodes-divides hash rs d = (counts-sum rs d, λ c. nodes-select rs d c)
