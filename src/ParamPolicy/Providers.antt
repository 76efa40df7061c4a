-- ===== src/ParamPolicy/Providers.antt =====
-- The policies that llm/param_policy.py ships, and the checks over them.
use backend_template.Prelude.{
  String, ◌≡◌, refl, Bool, true, ◌&&◌, not, some, List, [], ◌∷◌, arith, Option-cases, inl, inr,
}
use backend_template.ParamPolicy.{mem, get, is_some, Policy, streaming_params}
use backend_template.ParamPolicy.Targets.{target}

-- `ModelProvider`
pub data ModelProvider : Type 0 where
  openai xai custom_openai_compatible deepinfra fireworks gemini claude ollama : ModelProvider

-- `POLICIES`, as it is before any override is loaded
unfoldable pub policies : ModelProvider → Policy
policies openai = record {
  allowed =
      "temperature" ∷ "max_tokens" ∷ "top_p" ∷ "frequency_penalty" ∷ "presence_penalty"
      ∷ "request_timeout" ∷ [];
  renamed = [];
  dropped = [];
  passthrough_prefixes = [];
}
policies xai = record {
  allowed = "temperature" ∷ "max_tokens" ∷ "top_p" ∷ "timeout" ∷ "reasoning_effort" ∷ [];
  renamed = ("request_timeout", "timeout") ∷ [];
  dropped = "frequency_penalty" ∷ "presence_penalty" ∷ [];
  passthrough_prefixes = [];
}
policies custom_openai_compatible = record {
  allowed =
      "temperature" ∷ "max_tokens" ∷ "top_p" ∷ "frequency_penalty" ∷ "presence_penalty"
      ∷ "request_timeout" ∷ [];
  renamed = [];
  dropped = [];
  passthrough_prefixes = [];
}
policies deepinfra = record {
  allowed = "temperature" ∷ "max_tokens" ∷ "top_p" ∷ "top_k" ∷ "timeout" ∷ [];
  renamed = ("request_timeout", "timeout") ∷ [];
  dropped = "frequency_penalty" ∷ "presence_penalty" ∷ [];
  passthrough_prefixes = [];
}
policies fireworks = record {
  allowed =
      "temperature" ∷ "max_tokens" ∷ "top_p" ∷ "top_k" ∷ "request_timeout" ∷ "reasoning_effort"
      ∷ "thinking" ∷ "reasoning_history" ∷ [];
  renamed = [];
  dropped = "frequency_penalty" ∷ "presence_penalty" ∷ [];
  passthrough_prefixes = [];
}
policies gemini = record {
  allowed =
      "temperature" ∷ "max_output_tokens" ∷ "top_p" ∷ "thinking_level" ∷ "include_thoughts"
      ∷ "thinking_budget" ∷ [];
  renamed = ("max_tokens", "max_output_tokens") ∷ [];
  dropped = "frequency_penalty" ∷ "presence_penalty" ∷ "request_timeout" ∷ [];
  passthrough_prefixes = [];
}
policies claude = record {
  allowed = "temperature" ∷ "max_tokens" ∷ "top_p" ∷ "timeout" ∷ [];
  renamed = ("request_timeout", "timeout") ∷ [];
  dropped = "frequency_penalty" ∷ "presence_penalty" ∷ [];
  passthrough_prefixes = [];
}
policies ollama = record {
  allowed =
      "temperature" ∷ "top_p" ∷ "stop" ∷ "num_ctx" ∷ "num_predict" ∷ "repeat_penalty" ∷ "top_k"
      ∷ "options" ∷ "base_url" ∷ "timeout" ∷ [];
  renamed = ("max_tokens", "num_predict") ∷ ("request_timeout", "timeout") ∷ [];
  dropped = "frequency_penalty" ∷ "presence_penalty" ∷ [];
  passthrough_prefixes = "num_" ∷ [];
}

-- every parameter to which a policy renames, as a list
abbrev new_names : List (String × String) → List String
new_names [] = []
new_names ((old, new) ∷ more) = new ∷ new_names more

-- A name that is allowed, and not renamed, dropped or about streaming.
abbrev forwarded : Policy → String → Bool
forwarded p name =
    mem name p.allowed
    && not (is_some (get name p.renamed))
    && not (mem name p.dropped)
    && not (mem name streaming_params)

abbrev all_forwarded : Policy → List String → Bool
all_forwarded p [] = true
all_forwarded p (name ∷ names) = forwarded p name && all_forwarded p names

new_names-forwarded :
    (provider : ModelProvider)
    → all_forwarded (policies provider) (new_names (policies provider).renamed) ≡ true
unfolding policies mem get
new_names-forwarded openai = refl
new_names-forwarded xai = refl
new_names-forwarded custom_openai_compatible = refl
new_names-forwarded deepinfra = refl
new_names-forwarded fireworks = refl
new_names-forwarded gemini = refl
new_names-forwarded claude = refl
new_names-forwarded ollama = refl

renamed-forwarded :
    (p : Policy) (renamed : List (String × String)) (name new : String)
    → all_forwarded p (new_names renamed) ≡ true
    → get name renamed ≡ some new
    → forwarded p new ≡ true
unfolding get
renamed-forwarded p [] name new h e = ground arith
renamed-forwarded p ((i, j) ∷ renamed) name new h e =
    ground (arith, renamed-forwarded p renamed name new)

module _ (global_prefixes : List String) where
  target-forwarded :
      (p : Policy) (name : String)
      → forwarded p name ≡ true
      → target p global_prefixes name ≡ some name
  unfolding target
  target-forwarded p name h = elim (Option-cases (get name p.renamed)) [
    | inl e ↦ ground arith
    | inr (j, e) ↦ absurd (ground arith)
  ]

  -- By the shipped policies a name under which a parameter is forwarded is itself forwarded, under the same
  -- name, whatever the global prefixes: parameters that were normalized are kept when they are normalized
  -- again for the same provider.
  target-target :
      (provider : ModelProvider) (name k : String)
      → target (policies provider) global_prefixes name ≡ some k
      → target (policies provider) global_prefixes k ≡ some k
  unfolding target
  target-target provider name k e =
      let p = policies provider in
      elim (Option-cases (get name p.renamed)) [
        | inl same ↦ ground (arith, same, e)
        | inr (j, new) ↦
            let f = renamed-forwarded p p.renamed name j (new_names-forwarded provider) new in
            ground (arith, target-forwarded p j f)
      ]
