-- ===== src/Tests/Selection.antt =====
-- The selection of retrieved blocks and the plan of the engine on a few candidates.
use low_context_inference.Base.{
  ℕ, ◌+◌, ◌*◌, ◌-◌, ◌≡◌, refl, map, Option, none, some, Bool, false, String, List, [], ◌∷◌, leb,
  ltb, str_eq, ◌&&◌, ◌||◌, if◌then◌else◌,
}
use low_context_inference.Json.{Fields, end, field, str, lookup}
use low_context_inference.Engine.{
  Candidate, CandidateSource, system, recent_turn, current_request, memory, sort_tiers, total,
}
use low_context_inference.Engine.Allocation.{allocate, tools_total, plan_of, build, Built, built}
use low_context_inference.Engine.Request.{separate_current_request}
use low_context_inference.Engine.Request.Splitting.{Separated, separate_current_request_lem}
use low_context_inference.Engine.Budget.{Answer, allocate-Answer}
use low_context_inference.Engine.Isolation.{IsOwn, IsAmong, IsMadeOf, build-IsOwn}
use low_context_inference.Mmr.{Floats, mmr_select}

abbrev whole : Floats
whole = record {
  Num = ℕ;
  nought = 0;
  one = 1;
  minus = ◌-◌;
  times = ◌*◌;
  less = ltb;
  same = λ a b. leb a b && leb b a;
  text_less = λ s t. false;
}

abbrev alike : String → String → ℕ
alike s t = if str_eq s t then 1 else 0

abbrev scored : List (ℕ × String)
scored = (3, "a") ∷ (9, "b") ∷ (5, "c") ∷ []

best_two : mmr_select whole alike 1 scored 2 ≡ "b" ∷ "c" ∷ []
unfolding mmr_select
best_two = refl

abbrev known : String → Bool
known k = str_eq k "a" || str_eq k "b" || str_eq k "c"

abbrev say : String → String → Fields
say role content = field "role" (str role) (field "content" (str content) end)

abbrev asked : List Fields
asked =
    say "system" "s" ∷ say "user" "a" ∷ say "assistant" "b" ∷ say "user" "c" ∷ say "system" "t" ∷ []

splits : separate_current_request asked ≡ (
  say "system" "s" ∷ say "user" "a" ∷ say "assistant" "b" ∷ say "system" "t" ∷ [],
  say "user" "c" ∷ [],
)
unfolding separate_current_request
splits = refl

separate_current_request_lem_example : Separated asked (separate_current_request asked)
separate_current_request_lem_example = separate_current_request_lem asked

abbrev of_source : CandidateSource → String → ℕ → ℕ → Option String → List Fields → Candidate
of_source source key tokens tier conversation ms = record {
  source = source;
  key = key;
  tokens = tokens;
  tier = tier;
  render = ms;
  text = key;
  conversation_id = conversation;
  explicit = none;
  position = 0;
  content_texts = [];
  dedup_text = key;
}

abbrev fused : List Candidate
fused =
    of_source system "unit:0" 2 1 none (say "system" "s" ∷ [])
    ∷ of_source recent_turn "unit:1" 4 4 none (say "user" "a" ∷ [])
    ∷ of_source current_request "current_request" 3 3 none (say "user" "c" ∷ [])
    ∷ of_source memory "m1" 2 5 (some "mine") (say "user" "x" ∷ [])
    ∷ of_source memory "m2" 2 5 (some "theirs") (say "user" "y" ∷ [])
    ∷ of_source memory "m3" 2 5 (some "mine") (say "user" "z" ∷ [])
    ∷ []

abbrev relevance : Candidate → ℕ
relevance c = c.tokens

-- the newest turn fits, the memory of another conversation and the superseded one do not come
abbrev sent : Built → List String
sent (built p) = map (λ i. i.key) p.selected_items
sent _ = []

sends :
    sent (build whole alike 1 relevance 8 100 20 fused ("m3" ∷ []) (some "mine"))
    ≡ "unit:0" ∷ "m1" ∷ "unit:1" ∷ "current_request" ∷ []
unfolding build lookup
sends = refl

allocate-Answer_example :
    Answer whole alike 1 relevance 8 100 20
      (total (sort_tiers fused).mandatory + tools_total (sort_tiers fused).tools)
      (plan_of whole alike 1 relevance 8 100 20
        (allocate whole alike 1 relevance 8 100 20 fused []))
allocate-Answer_example = allocate-Answer whole alike 1 relevance 8 100 20 fused []

build-IsOwn_example :
    IsMadeOf
      (λ c. IsAmong fused c × IsOwn ("m3" ∷ []) (some "mine") c)
      (build whole alike 1 relevance 8 100 20 fused ("m3" ∷ []) (some "mine"))
build-IsOwn_example = build-IsOwn whole alike 1 relevance 8 100 20 ("m3" ∷ []) (some "mine") fused
