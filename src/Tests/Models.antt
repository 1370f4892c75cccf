-- ===== src/Tests/Models.antt =====
-- The cache of model responses at concrete prompts.
use competitor_intelligence.Base.{ℕ, ◌≡◌, refl, arith, true, false, Option, some, String, []}
use competitor_intelligence.LlmCache.{ResponseCodec, LlmCache, get, set}
use competitor_intelligence.LlmCache.Outages.{outage_returns_stale}

abbrev codec : ResponseCodec ℕ
codec = record {
  Text = Option ℕ;
  dumps = some;
  loads = λ t. t;
  is_empty = λ t. false;
  loads-dumps = λ r. refl;
  is_empty-dumps = λ r. refl;
}

abbrev hash_prompt : String → String
hash_prompt prompt = prompt

abbrev empty : LlmCache ℕ (Option ℕ)
empty = record { memory_cache = []; redis_client = true; redis_attempted = true; server = [] }

outage_returns_stale_example :
    (get codec hash_prompt 60 true false 30 "p" (
      set codec hash_prompt 60 true true 20 "p" 8
        (set codec hash_prompt 60 true false 10 "p" 7 empty))).0
    ≡ some 7
outage_returns_stale_example =
    outage_returns_stale codec hash_prompt 60 true 10 20 30 "p" 7 8 empty refl refl (omega arith)
