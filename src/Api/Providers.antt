-- ===== src/Api/Providers.antt =====
-- The choice of the providers of api.py from the environment. What reads the settings of a remote
-- provider is an argument: `none` where it raises ConfigurationError or ValueError.
use customer_data_foundation.Prelude.{
  ℕ, ◌≡◌, refl, ◌==◌, Bool, true, false, not, ◌||◌, Option, none, some, String, if◌then◌else◌,
}
use customer_data_foundation.Text.{Text, Unicode, codes, text_eq, strip, casefold}
use customer_data_foundation.Knowledge.Store.{embedding_dimensions}
use customer_data_foundation.Api.{Answer, answer, refused}

-- `os.environ.get(name, default)`
abbrev pub env_or : Option Text → Text → Text
env_or none default = default
env_or (some value) default = value

abbrev pub is_local_name : Text → Bool
is_local_name name = text_eq name (codes "deterministic_local")

abbrev pub default_provider : Bool → Text
default_provider true = codes "deterministic_local"
default_provider false = codes "openai"

abbrev pub configured : {A : Type 0} → String → Option A → Answer A
configured code none = refused 503 code
configured code (some provider) = answer provider

module _ (u : Unicode) where
  abbrev pub is_development : Text → Bool
  is_development app_env = text_eq app_env (codes "development") || text_eq app_env (codes "test")

  -- `os.environ.get("APP_ENV", "production").strip().casefold()`
  unfoldable pub app_env_of : Option Text → Text
  unfolding strip casefold
  app_env_of value = casefold u (strip u (env_or value (codes "production")))

  -- a local provider in development and test, and otherwise the remote one
  unfoldable pub choose_provider :
      {A : Type 0} → String → String → Option Text → Option Text → A → Option A → Answer A
  unfolding app_env_of strip
  choose_provider not_allowed not_configured app_env name local remote =
      let development = is_development (app_env_of app_env) in
      let provider_name = strip u (env_or name (default_provider development)) in
      if is_local_name provider_name
      then (if not development then refused 503 not_allowed else answer local)
      else if text_eq provider_name (codes "openai")
      then configured not_configured remote
      else refused 503 not_configured

  unfoldable pub grounded_answer_generator :
      {A : Type 0} → Option Text → Option Text → A → Option A → Answer A
  unfolding choose_provider
  grounded_answer_generator app_env name local remote =
      choose_provider "answer_provider_not_allowed" "answer_provider_not_configured" app_env name
        local remote

  unfoldable pub controlled_action_planner :
      {A : Type 0} → Option Text → Option Text → A → Option A → Answer A
  unfolding choose_provider
  controlled_action_planner app_env name local remote =
      choose_provider "action_provider_not_allowed" "action_provider_not_configured" app_env name
        local remote

-- `query_planner` and `knowledge_embedding_provider`
unfoldable pub query_planner : {A : Type 0} → Option A → Answer A
query_planner remote = configured "ai_not_configured" remote

unfoldable pub knowledge_embedding_provider : {A : Type 0} → Option A → Answer A
knowledge_embedding_provider provider = configured "embedding_not_configured" provider

-- `embedding_provider_from_environment`; `dimensions` is what `int` makes of its setting, or `none`
unfoldable pub embedding_provider_from_environment :
    Unicode → {A : Type 0} → Option Text → Option Text → Option ℕ → A → Option A → Option A
unfolding casefold
embedding_provider_from_environment u app_env name none local remote = none
embedding_provider_from_environment u app_env name (some dimensions) local remote =
    let environment = casefold u (env_or app_env (codes "production")) in
    let development = is_development u environment in
    let provider_name = casefold u (env_or name (default_provider development)) in
    if not (dimensions == embedding_dimensions)
    then none
    else if is_local_name provider_name
    then (if not development then none else some local)
    else if text_eq provider_name (codes "openai")
    then remote
    else none

-- Where APP_ENV is neither development nor test, no choice depends on what the local provider is: a
-- local generator and a local planner are never chosen.
pub choose_provider-remote :
    (u : Unicode) {A : Type 0} (app_env name : Option Text) (remote : Option A) (x y : A)
    → is_development u (app_env_of u app_env) ≡ false
    → (grounded_answer_generator u app_env name x remote
        ≡ grounded_answer_generator u app_env name y remote)
      × (controlled_action_planner u app_env name x remote
          ≡ controlled_action_planner u app_env name y remote)
unfolding grounded_answer_generator controlled_action_planner choose_provider
choose_provider-remote u app_env name remote x y h = (rw h refl, rw h refl)
