-- ===== src/Gemini/Response/Counts.antt =====
-- The token counts that `buildAnthropicUsage` of pkg/adapter/gemini.go reports.
use aadapter.Base.{ℕ, ◌+◌, ◌≤◌, ◌≡◌, ◌≢◌, Option, none, some, arith}
use aadapter.Base.Maps.{get}
use aadapter.Json.{Value, Float, as_object, or_none}
use aadapter.Gemini.Response.{Usage, uint64_number, usage_of, build_usage}

abbrev pub cached_of : Usage → ℕ
cached_of u = elim u.cache_read_input_tokens [ some n ↦ n | none ↦ 0 ]

usage_of-total :
    (out_of_range : Float → ℕ) (prompt cached total candidates thoughts : ℕ)
    → cached ≤ prompt
    → prompt ≤ total
    → total ≢ 0
    → (usage_of out_of_range prompt cached total candidates thoughts).input_tokens
        + cached_of (usage_of out_of_range prompt cached total candidates thoughts)
        + (usage_of out_of_range prompt cached total candidates thoughts).output_tokens
      ≡ total
usage_of-total out_of_range prompt cached total candidates thoughts part least given = ground arith

-- The input, the cached and the output tokens that are reported add up to the total that Gemini
-- reports, where the cached are part of the prompt, the prompt is part of the total, and the
-- total is not zero.
pub build_usage-total :
    (out_of_range : Float → ℕ) (value : Option Value) (prompt cached total : ℕ)
    → uint64_number out_of_range (get "promptTokenCount" (or_none (as_object value))) ≡ prompt
    → uint64_number out_of_range (get "cachedContentTokenCount" (or_none (as_object value)))
      ≡ cached
    → uint64_number out_of_range (get "totalTokenCount" (or_none (as_object value))) ≡ total
    → cached ≤ prompt
    → prompt ≤ total
    → total ≢ 0
    → (build_usage out_of_range value).input_tokens
        + cached_of (build_usage out_of_range value)
        + (build_usage out_of_range value).output_tokens
      ≡ total
unfolding build_usage
build_usage-total out_of_range value prompt cached total p c t part least given =
    rw (p, c, t) (usage_of-total out_of_range prompt cached total _ _ part least given)
