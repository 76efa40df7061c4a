-- ===== src/Tests/Parameters.antt =====
-- Parameters under the shipped policies, and a model's override.
use backend_template.Prelude.{String, ◌≡◌, Bool, true, false, Option, none, some, List, [], ◌∷◌}
use backend_template.ParamPolicy.{get, normalize, Change, Override}
use backend_template.ParamPolicy.Targets.{last_value, get-normalize}
use backend_template.ParamPolicy.Providers.{gemini, policies}
use backend_template.ParamPolicy.Caching.{raw_override, Loaded}

abbrev raw : List (String × Option Bool)
raw = ("max_tokens", some true) ∷ ("timeout", some false) ∷ []

get-normalize_example :
    get "max_output_tokens" (normalize (policies gemini) [] raw [])
    ≡ last_value (policies gemini) [] "max_output_tokens" raw
get-normalize_example = get-normalize (policies gemini) [] "max_output_tokens" raw

abbrev nothing : Change
nothing = record { allowed = none; renamed = none; dropped = none; passthrough_prefixes = none }

abbrev override : Override
override = record { replace = nothing; patch = record nothing { allowed = some ("seed" ∷ []) } }

abbrev loaded : Loaded
loaded = record { policies = policies; models = ("m", raw_override none override) ∷ [] }
