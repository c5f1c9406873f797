-- ===== src/Api/OpenApi.antt =====
-- `_configure_openapi_security` of interfaces/api/app.py: the document's schemes of security, and the
-- operations of its paths. What FastAPI generates is given; an item of a path that is no operation
-- stays as it is.
use marketplace_pipeline.Base.{
  ◌≡◌, refl, false, Option, none, some, List, [], ◌∷◌, ◌++◌, Text, Text-Eq, text_eq, Dict, codes,
  starts_with, if◌then◌else◌,
}
use marketplace_pipeline.Api.PublicPaths.{is_public_path, public_path_prefixes}
use marketplace_pipeline.Composition.Settings.{Settings, api_auth_enabled}

pub data PathItem : Type 0 where
  operation : (security : List Text) (rest : Text) → PathItem
  other_item : Text → PathItem

pub record OpenApi : Type 0 where
  pub security_schemes : List Text
  pub paths : Dict Text (Dict Text PathItem)

abbrev schemes : List Text
schemes = codes "ApiKeyAuth" ∷ codes "BearerAuth" ∷ []

abbrev secured_item : PathItem → PathItem
secured_item (operation security rest) = operation schemes rest
secured_item (other_item value) = other_item value

abbrev secured_items : Dict Text PathItem → Dict Text PathItem
secured_items [] = []
secured_items ((method, item) ∷ items) = (method, secured_item item) ∷ secured_items items

-- The loop over the paths.
unfoldable pub secured_paths : Dict Text (Dict Text PathItem) → Dict Text (Dict Text PathItem)
secured_paths [] = []
secured_paths ((path, items) ∷ paths) =
    (path, if starts_with (codes "/api/v1") path then secured_items items else items)
    ∷ secured_paths paths

-- `custom_openapi`: the cached document, or the new one, which is cached.
unfoldable pub custom_openapi : OpenApi → Option OpenApi → OpenApi × Option OpenApi
unfolding secured_paths
custom_openapi original (some schema) = (schema, some schema)
custom_openapi original none =
    let schema : OpenApi = record {
      security_schemes = schemes;
      paths = secured_paths original.paths;
    } in
    (schema, some schema)

-- The document that the application serves.
unfoldable pub openapi : Settings → OpenApi → Option OpenApi → OpenApi × Option OpenApi
unfolding custom_openapi
openapi settings original cached =
    if api_auth_enabled settings then custom_openapi original cached else (original, cached)

-- The paths that are declared to need a key do need one: none of them is public.
pub api_path_private : (rest : Text) → is_public_path (codes "/api/v1" ++ rest) ≡ false
unfolding is_public_path public_path_prefixes starts_with text_eq
api_path_private rest = refl
