-- ===== src/Pricing/Tests.antt =====
-- Tests of src/fabri/pricing.py, and the theorem on a concrete table.
use fabri.Prelude.{ℕ, ◌+◌, ◌*◌, ◌/◌, some, none, [], ◌≡◌, refl}
use fabri.Agent.Defs.{Usage}
use fabri.Pricing.Defs.{pricing, find_entry, Floats, cost_for}
use fabri.Pricing.Longest.{IsEntry, find_entry-IsEntry}

-- A dated name has the rates of the longest name in the table.
dated : find_entry pricing "gpt-4o-mini-2024" ≡ some (150, 600)
unfolding find_entry
dated = refl

unknown : find_entry pricing "llama" ≡ none
unfolding find_entry
unknown = refl

-- Costs in thousandths, without rounding.
abbrev floats : Floats ℕ
floats = record {
  of_thousandths = λ n. n;
  per_million = λ n. n * 1000000;
  times = λ n r. n * r;
  add = λ a b. a + b;
  cache_write = λ n. n * 5 / 4;
  cache_read = λ n. n / 10;
  for_million = λ n. n / 1000000;
  round = λ n. n;
}

abbrev usage : Usage
usage = record {
  model = some "claude-haiku-4-5-20251001";
  input_tokens = 1000000;
  output_tokens = 1000000;
  cache_creation_input_tokens = 1000000;
  cache_read_input_tokens = 1000000;
  provider_transient_retries = 0;
  max_token_retries = 0;
}

haiku_cost : cost_for floats [] usage ≡ some 7350
unfolding cost_for
haiku_cost = refl

find_entry-IsEntry_example :
    IsEntry "gpt-4o-mini-2024" pricing (find_entry pricing "gpt-4o-mini-2024")
find_entry-IsEntry_example = find_entry-IsEntry "gpt-4o-mini-2024" pricing
