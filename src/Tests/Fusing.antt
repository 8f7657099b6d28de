-- ===== src/Tests/Fusing.antt =====
-- The engine's plan from a history, a request and what was retrieved.
use low_context_inference.Base.{
  ℕ, ◌+◌, ◌*◌, ◌-◌, ◌≡◌, ◌==◌, refl, Option, none, some, false, String, List, [], ◌∷◌, ltb,
}
use low_context_inference.Json.{Fields, end, field, str}
use low_context_inference.Runtime.{Runtime}
use low_context_inference.Tokens.{Counter}
use low_context_inference.Planner.{add_message, is_instruction_role}
use low_context_inference.Mmr.{Floats}
use low_context_inference.Memory.Retrieval as Retrieval
use low_context_inference.Memory.Retrieval.{RetrievedItem, ItemType}
use low_context_inference.Engine.{Candidate}
use low_context_inference.Engine.Allocation.{Built, built, build}
use low_context_inference.Engine.Texts.{Rendering, message_texts}
use low_context_inference.Engine.Fusion.{fuse_candidates, retrieved_message}

abbrev py : Runtime
py = record { dumps = λ v. "{}"; print = λ v. "0"; sha256 = λ t. t }

abbrev rd : Rendering
rd = record {
  collapse = λ t. t;
  strip = λ t. t;
  lower = λ t. t;
  splitlines = λ t. t ∷ [];
  loads = λ t. none;
  dumps_sorted = λ v. "{}";
}

abbrev ten_each : Counter
ten_each = record { message = λ m. 10; tools = λ ts. 5 }

abbrev whole : Floats
whole = record {
  Num = ℕ;
  nought = 0;
  one = 1;
  minus = ◌-◌;
  times = ◌*◌;
  less = ltb;
  same = ◌==◌;
  text_less = λ s t. false;
}

abbrev scores : Retrieval.Floats
scores = record {
  Num = ℕ;
  nought = 0;
  one = 1;
  hundredths = λ n. n;
  plus = ◌+◌;
  times = ◌*◌;
  over = λ a b. a;
  round = λ a. a;
  less = ltb;
  same = ◌==◌;
  text_less = λ s t. false;
}

abbrev say : String → String → Fields
say role content = field "role" (str role) (field "content" (str content) end)

abbrev item : RetrievedItem scores
item = record {
  item_type = ItemType.memory;
  id = "k1";
  conversation_id = "c1";
  kind = "fact";
  content = "the sky is blue";
  score = 3;
  components = record {
    semantic = 1;
    lexical = 0;
    recency = 1;
    importance = 1;
    type_priority = 50;
  };
  source_message_ids = [];
  start_seq = none;
  end_seq = none;
}

abbrev fusion : Option (List Candidate)
fusion =
    fuse_candidates py rd ten_each scores (say "system" "be brief" ∷ say "user" "hello" ∷ [])
      (say "user" "which colour?" ∷ []) [] [] (item ∷ [])

abbrev list_or_none : Option (List Candidate) → List Candidate
list_or_none none = []
list_or_none (some cs) = cs

abbrev fused : List Candidate
fused = list_or_none fusion

abbrev messages_of : Built → List Fields
messages_of (built p) = p.messages
messages_of _ = []

packs :
    messages_of (build whole (λ s t. 0) 1 (λ c. c.tokens) 2 100 40 fused [] (some "c1"))
    ≡ say "system" "be brief"
      ∷ retrieved_message py rd ten_each scores item
      ∷ say "user" "hello"
      ∷ say "user" "which colour?"
      ∷ []
unfolding build fuse_candidates message_texts add_message is_instruction_role
packs = refl
