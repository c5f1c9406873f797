-- ===== src/Domain/TaskFactory.antt =====
-- domain/services/crm_task_factory.py
pub mod Titles
use marketplace_pipeline.Base.{
  ℕ, List, [], ◌∷◌, ◌++◌, map, Text, codes, decimal, join, is_empty, if◌then◌else◌,
}
use marketplace_pipeline.Domain.Entities.{EnrichedProduct, CrmTaskRequest}
use marketplace_pipeline.Domain.Selection.{
  top_premium_by_price, top_economy_by_price, default_limit,
}

unfoldable pub premium_title : Text
premium_title = codes "Топ-5 дорогих товаров сегмента Премиум"

unfoldable pub economy_title : Text
economy_title = codes "Топ-5 дешёвых товаров сегмента Эконом"

-- `f"- {p.name}: {p.price:.0f} {p.currency} — {p.url}"`
unfoldable pub format_line : EnrichedProduct → Text
format_line p =
    codes "- "
    ++ (p.name
        ++ (codes ": "
            ++ (decimal p.price ++ (codes " " ++ (p.currency ++ (codes " — " ++ p.url))))))

unfoldable pub format_lines : List EnrichedProduct → Text
unfolding format_line
format_lines products = join (codes "\n") (map format_line products)

-- `if chosen: tasks.append(...)`
unfoldable pub task_for : Text → List EnrichedProduct → List CrmTaskRequest
task_for heading chosen =
    if is_empty chosen
    then []
    else record { title = heading; description = format_lines chosen } ∷ []

unfoldable pub build_tasks : List EnrichedProduct → List CrmTaskRequest
unfolding task_for
build_tasks products =
    let chosen_premium = top_premium_by_price products default_limit in
    let chosen_economy = top_economy_by_price products default_limit in
    task_for premium_title chosen_premium ++ task_for economy_title chosen_economy
