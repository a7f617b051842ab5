-- ===== src/RateLimit/Tests.antt =====
-- Calls of one client at concrete times, on sorted sets in memory.
use social_graph_engine.Base.{
  ℕ, ◌≡◌, refl, true, none, some, List, [], ◌∷◌, Text, text_eq, text_eq_refl, if◌then◌else◌, length,
  arith, codes,
}
use social_graph_engine.Redis.{reply}
use social_graph_engine.Redis.Memory.{numerals}
use social_graph_engine.RateLimit.{
  Entry, Pipeline, anonymous, rate_key, type_text, window_start, judge, check_rate_limit, calls,
  anonymous_id, identify_untokened, identify_subject, identify_client, authenticated,
}
use social_graph_engine.RateLimit.Sorted.{cut, add, IsSorted}
use social_graph_engine.RateLimit.Window.{check_rate_limit_lem}

abbrev Sets : Type 0
Sets = Text → List Entry

abbrev pipeline : Pipeline Sets
pipeline = record {
  execute = λ k high m score ttl s. (
    reply (length (add m score (cut high (s k)))),
    λ j. if text_eq k j then add m score (cut high (s k)) else s j,
  );
}

abbrev entries : Text → Sets → List Entry
entries k s = s k

abbrev no_sets : Sets
no_sets k = []

pipeline-IsSorted : IsSorted pipeline entries
pipeline-IsSorted = record {
  execute-reply = λ k high m score ttl s. refl;
  execute-entries = λ k high m score ttl s. rw (text_eq_refl k) refl;
}

program : Unit {0}
unfolding rate_key type_text window_start judge check_rate_limit calls anonymous_id
    identify_untokened identify_subject identify_client text_eq
program = tt

-- Three calls, one of them out of the window, and a fourth.
abbrev times : List ℕ
times = 70000 ∷ 65000 ∷ 5000 ∷ []

check_rate_limit_lem_example :
    (check_rate_limit numerals pipeline anonymous [] 3 90000
      (calls numerals pipeline anonymous [] 3 times (some no_sets))).0
    ≡ record { allowed = true; current = 3; reset_seconds = 60 }
check_rate_limit_lem_example =
    check_rate_limit_lem numerals pipeline entries pipeline-IsSorted anonymous [] 3 90000 times
      no_sets (omega arith, (omega arith, (omega arith, tt))) refl

-- A bearer token that decodes names the client, whoever signed it.
by_token :
    identify_client
      (λ t. t)
      (λ t. t)
      (record {
        path = [];
        authorization = codes "Bearer abc";
        x_api_key = [];
        x_request_id = [];
        host = none;
      })
    ≡ (authenticated, codes "abc")
unfolding program
by_token = refl
