-- ===== src/Governance/Models.antt =====
-- The server-side policy of providers and models. The environment is a parameter.
use Prim.Native.String.{◌++◌ as append}
use eiraos_chat_backend.Prelude.{
  String, Option, none, some, List, [], ◌∷◌, ◌||◌, not, str_eq, if◌then◌else◌, map,
}
use eiraos_chat_backend.Prelude.Text.{strip, lower, upper, split_commas, is_empty, one_of}
use eiraos_chat_backend.Prelude.Result.{Result, ok, err, ◌>>=◌, ◌>>◌, raise_if}
use eiraos_chat_backend.Http.{HttpException, http}

-- `DEFAULT_PROVIDER_MODELS.get(provider)`
unfoldable pub default_provider_models : String → Option (List String)
default_provider_models provider =
    if str_eq provider "openai"
    then some ("gpt-4o" ∷ "gpt-4o-mini" ∷ "gpt-4.1" ∷ "gpt-4.1-mini" ∷ [])
    else if str_eq provider "anthropic"
    then some ("claude-3-5-sonnet-20241022" ∷ "claude-3-5-haiku-20241022" ∷ [])
    else if str_eq provider "google"
    then some ("gemini-1.5-pro" ∷ "gemini-1.5-flash" ∷ [])
    else none

-- `PROVIDER_ALIASES.get(normalized, normalized)`
unfoldable pub provider_aliases : String → String
provider_aliases provider =
    if str_eq provider "claude"
    then "anthropic"
    else if str_eq provider "gemini"
    then "google"
    else provider

abbrev known_or_denied : String → Option (List String) → Result HttpException String
known_or_denied provider none = err (http 403 "AI provider is not allowed.")
known_or_denied provider (some models) = ok provider

unfoldable pub normalize_provider : String → Result HttpException String
normalize_provider provider =
    let normalized = provider_aliases (lower (strip provider)) in
    known_or_denied normalized (default_provider_models normalized)

-- `{item.strip() for item in raw.split(",") if item.strip()}`
abbrev pub keep_nonempty : List String → List String
keep_nonempty [] = []
keep_nonempty (item ∷ items) =
    let rest = keep_nonempty items in if is_empty item then rest else item ∷ rest

abbrev pub or_none_allowed : Option (List String) → List String
or_none_allowed none = []
or_none_allowed (some models) = models

abbrev pub models_from : Option (List String) → Option String → List String
models_from default none = or_none_allowed default
models_from default (some raw) = keep_nonempty (map strip (split_commas raw))

module _ (getenv : String → Option String) where
  unfoldable pub configured_models : String → List String
  configured_models provider =
      models_from (default_provider_models provider)
        (getenv (append "EIRAOS_ALLOWED_MODELS_" (upper provider)))

  unfoldable pub authorize_provider_model : String → String → Result HttpException (String × String)
  authorize_provider_model provider model = do
    normalized ← normalize_provider provider
    raise_if (is_empty (strip model) || not (one_of (strip model) (configured_models normalized)))
        (http 403 "AI model is not allowed for this provider.")
    ok (normalized, strip model)
