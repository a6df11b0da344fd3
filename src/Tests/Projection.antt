-- ===== src/Tests/Projection.antt =====
-- The theorem about the projection of records, applied to two records of two categories.
use oscillink_agent.Base.{◌≡◌, String, none, some, List, [], ◌∷◌, select, ◌==◌}
use oscillink_agent.Memory.Types.{
  approved, candidate, tooling, science, Category, MemoryRecord, category_eq,
}
use oscillink_agent.Projection.{project_product_nodes}
use oscillink_agent.Projection.Filters.{count_by_category, project_product_nodes-divides}
use oscillink_agent.Tests.{first_id, second_id, sample}

abbrev shown : List MemoryRecord
shown =
    sample second_id approved "roof" "solar roof"
    ∷ record (sample first_id candidate "sun" "solar cells") { category = tooling }
    ∷ []

abbrev hash : List MemoryRecord → String
hash rs = "sha256"

project_product_nodes-divides_example :
    (count_by_category (λ c. (project_product_nodes hash shown (some c) (some science)).count)
      ≡ (project_product_nodes hash shown none (some science)).count)
    × ((c : Category)
        → (project_product_nodes hash shown (some c) (some science)).nodes
          ≡ select
              (λ n. n.category == c)
              (project_product_nodes hash shown none (some science)).nodes)
project_product_nodes-divides_example = project_product_nodes-divides hash shown (some science)
