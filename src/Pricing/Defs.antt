-- ===== src/Pricing/Defs.antt =====
-- src/fabri/pricing.py: the table of rates, the lookup by the longest prefix and the cost of a usage.
use fabri.Prelude.{
  ℕ, String, Bool, true, ◌&&◌, Option, none, some, List, [], ◌∷◌, map, if◌then◌else◌, ltb, is_empty,
  Dict, lookup, starts_with, str_length,
}
use fabri.Agent.Defs.{Usage}

-- `PRICING`: the rates of input and output for a million tokens, in thousandths of a dollar.
abbrev pub pricing : Dict (ℕ × ℕ)
pricing =
    ("claude-sonnet-4-6", (3000, 15000))
    ∷ ("claude-haiku-4-5", (1000, 5000))
    ∷ ("claude-opus-4-8", (5000, 25000))
    ∷ ("claude-opus-4-7", (5000, 25000))
    ∷ ("claude-opus-4-6", (5000, 25000))
    ∷ ("gpt-4o", (2500, 10000))
    ∷ ("gpt-4o-mini", (150, 600))
    ∷ ("gpt-5", (1250, 10000))
    ∷ ("gpt-5-mini", (250, 2000))
    ∷ ("gpt-5-nano", (50, 400))
    ∷ ("gpt-5.1", (1250, 10000))
    ∷ ("gpt-5.2", (1750, 14000))
    ∷ ("gpt-5.4", (2500, 15000))
    ∷ ("gpt-5.4-mini", (750, 4500))
    ∷ ("gpt-5.4-nano", (200, 1250))
    ∷ ("gpt-5.5", (5000, 30000))
    ∷ ("gpt-5.5-pro", (30000, 180000))
    ∷ ("gpt-5.6-terra", (2500, 15000))
    ∷ ("gpt-5.6-luna", (1000, 6000))
    ∷ ("gpt-5.6-sol", (5000, 30000))
    ∷ ("anthropic/claude-haiku-4-5", (1000, 5000))
    ∷ ("anthropic/claude-sonnet-4-6", (3000, 15000))
    ∷ ("anthropic/claude-opus-4-8", (5000, 25000))
    ∷ ("openai/gpt-4o", (2500, 10000))
    ∷ ("openai/gpt-4o-mini", (150, 600))
    ∷ ("gemini-2.5-pro", (1250, 10000))
    ∷ ("gemini-2.5-flash", (300, 2500))
    ∷ ("gemini-2.5-flash-lite", (100, 400))
    ∷ ("gemini-2.0-flash", (100, 400))
    ∷ ("anthropic.claude-3-5-sonnet", (3000, 15000))
    ∷ ("us.anthropic.claude-3-5-sonnet", (3000, 15000))
    ∷ ("anthropic.claude-3-5-haiku", (800, 4000))
    ∷ ("us.anthropic.claude-3-5-haiku", (800, 4000))
    ∷ ("openai.gpt-oss-120b", (150, 600))
    ∷ ("openai.gpt-oss-20b", (70, 300))
    ∷ ("moonshot.kimi-k2-thinking", (600, 2500))
    ∷ ("moonshotai.kimi-k2.5", (600, 3000))
    ∷ ("jev-1.13.0", (42, 0))
    ∷ ("jev-1.14.0", (42, 0))
    ∷ ("typesafe/jev-1.13", (42, 0))
    ∷ ("typesafe/jev-1.14", (42, 0))
    ∷ []

-- `_best_prefix_key`: the longest key that starts the model's name, the first of the longest.
unfoldable pub is_longer : String → Option String → Bool
unfolding str_length
is_longer key none = true
is_longer key (some best) = ltb (str_length best) (str_length key)

unfoldable pub best_from : String → List String → Option String → Option String
unfolding starts_with is_longer
best_from model [] best = best
best_from model (key ∷ keys) best =
    best_from model keys (if starts_with key model && is_longer key best then some key else best)

unfoldable pub best_prefix_key : String → List String → Option String
unfolding best_from
best_prefix_key model keys = best_from model keys none

abbrev pub keys_of : {V : Type 0} → Dict V → List String
keys_of d = map (λ p. p.0) d

-- The entry of the model's name, or of its longest prefix; no text is a key that is not there.
abbrev pub entry_at : {V : Type 0} → Dict V → Option String → Option V
entry_at d none = none
entry_at d (some key) = lookup key d

unfoldable pub find_entry : {V : Type 0} → Dict V → String → Option V
unfolding best_prefix_key
find_entry d model = elim (lookup model d) [
  | some v ↦ some v
  | none ↦ entry_at d (best_prefix_key model (keys_of d))
]

-- Floats: the rates of the table, the product and the sum, and what the code rounds. `litellm` is the
-- `model_cost` of that package, where it is there, with the costs of one token.
pub record Floats (F : Type 0) : Type 0 where
  pub of_thousandths : ℕ → F
  pub per_million : F → F
  pub times : ℕ → F → F
  pub add : F → F → F
  pub cache_write : F → F
  pub cache_read : F → F
  pub for_million : F → F
  pub round : F → F

module _ {F : Type 0} (floats : Floats F) (litellm : Dict (Option F × Option F)) where
  abbrev both_rates : Option (Option F × Option F) → Option (F × F)
  both_rates (some (some i, some o)) = some (floats.per_million i, floats.per_million o)
  both_rates _ = none

  unfoldable pub litellm_rates_for : String → Option (F × F)
  unfolding find_entry
  litellm_rates_for model = both_rates (find_entry litellm model)

  abbrev table_rates : Option (ℕ × ℕ) → Option (F × F)
  table_rates none = none
  table_rates (some (i, o)) = some (floats.of_thousandths i, floats.of_thousandths o)

  -- `_rates_for`.
  unfoldable pub rates_for : Option String → Option (F × F)
  unfolding litellm_rates_for find_entry is_empty
  rates_for none = none
  rates_for (some model) = if is_empty model then none else elim (litellm_rates_for model) [
    | some rates ↦ some rates
    | none ↦ table_rates (find_entry pricing model)
  ]

  -- `cost_for`.
  unfoldable pub cost_for : Usage → Option F
  unfolding rates_for
  cost_for u = elim (rates_for u.model) [
    | none ↦ none
    | some (in_rate, out_rate) ↦ some (
        floats.round (
          floats.for_million (
            floats.add
              (floats.add
                (floats.add (floats.times u.input_tokens in_rate)
                  (floats.times u.output_tokens out_rate))
                (floats.cache_write (floats.times u.cache_creation_input_tokens in_rate)))
              (floats.cache_read (floats.times u.cache_read_input_tokens in_rate)))))
  ]
