-- ===== src/Api/PublicPaths.antt =====
-- interfaces/api/middleware/public_paths.py
use marketplace_pipeline.Base.{
  Bool, ◌||◌, List, [], ◌∷◌, ◌++◌, Text, Text-Eq, ◌==◌, codes, any, starts_with,
}

unfoldable pub public_path_prefixes : List Text
public_path_prefixes =
    codes "/health"
    ∷ codes "/ready"
    ∷ codes "/metrics"
    ∷ codes "/docs"
    ∷ codes "/redoc"
    ∷ codes "/openapi.json"
    ∷ []

unfoldable pub is_public_path : Text → Bool
unfolding public_path_prefixes
is_public_path path =
    any (λ prefix. path == prefix || starts_with (prefix ++ codes "/") path) public_path_prefixes
