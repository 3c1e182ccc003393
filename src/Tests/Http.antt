-- ===== src/Tests/Http.antt =====
-- Requests of miniserve/server.py, as in tests/test_server.py.
use miniserve.Base.{
  ℕ, ◌+◌, ◌*◌, ◌≤◌, ◌≡◌, ◌↔◌, refl, false, none, some, [], ◌∷◌, map, String_discrete, ite, take,
  pos, arith,
}
use miniserve.Result.{ok}
use miniserve.Engine.State.{Engine, FinishSummary, token_item, new_engine}
use miniserve.Server.Json.{
  finite, infinite, real, integer, array, object, no_elements, element, Members, no_members, member,
  get, ints_of, to_int, to_float,
}
use miniserve.Server.Post.{
  parsed, Setting, Request, Ask, submit, body_length, choose_prompt, prompt_of_list, numbers,
  verdict_of, of_prompt, of_body, do_post,
}
use miniserve.Server.Requests.{IsProper, submit_iff}
use miniserve.Server.Escapes.{Escapes}
use miniserve.Server.Respond.{token_event, ended, disconnected, blocked, relay}
use miniserve.Server.Get.{MetricsPage, health, metrics}
use miniserve.Server.Replies.{writes, stream_of, relay_lem, pages_bounds}
use miniserve.Tests.Fixture.{program, two, two-IsValid}

-- A server that reads each body as the given object.
abbrev reading : Members → Setting
reading body = record {
  parsers = record {
    parse_int = λ s. ite (String_discrete s "2") (some (pos 2)) none;
    parse_float = λ s. none;
    float_bound = 1000;
  };
  tokenizer = none;
  loads = λ bytes. parsed (object body);
}

abbrev post : Request
post = record { path = "/generate"; content_length = some "2"; read = λ n. 123 ∷ 125 ∷ [] }

-- One int, and one bool.
abbrev prompt : Members
prompt = member "prompt_ids" (array (element (integer (pos 5)) no_elements)) no_members

abbrev ask : Ask
ask = record {
  prompt_ids = pos 5 ∷ [];
  max_tokens = pos 128;
  temperature = finite (pos 0) 0;
  top_p = finite (pos 1) 0;
}

submitted : do_post (reading prompt) post ≡ ok (submit ask)
unfolding do_post body_length of_body choose_prompt get prompt_of_list ints_of of_prompt numbers
    to_int to_float verdict_of String_discrete
submitted = refl

submit_iff_example :
    (do_post (reading prompt) post ≡ ok (submit ask)) ↔ IsProper (reading prompt) post ask
submit_iff_example = submit_iff (reading prompt) post ask

-- `{"prompt_ids": [5], "max_tokens": 1e999}`
abbrev endless : Members
endless = member "max_tokens" (real (infinite false)) prompt

abbrev summary : FinishSummary
summary = record {
  req_id = "a";
  output_tokens = 2;
  ttft_ms = some 1;
  total_ms = some 2;
  throughput_tok_s = none;
  aborted = false;
}

relay_lem_example :
    (relay none (stream_of (7 ∷ 8 ∷ []) summary []) ≡ (writes (7 ∷ 8 ∷ []) summary, ended))
    × (relay (some 1) (stream_of (7 ∷ 8 ∷ []) summary [])
        ≡ (take 1 (writes (7 ∷ 8 ∷ []) summary), disconnected))
    × (relay none (map token_item (7 ∷ 8 ∷ [])) ≡ (map token_event (7 ∷ 8 ∷ []), blocked))
relay_lem_example = relay_lem (7 ∷ 8 ∷ []) summary [] 1 (omega arith)

abbrev engine : Engine ℕ
engine = new_engine two

pages_bounds_example :
    (free total : ℕ) × (page : MetricsPage) × (((health engine "fake").kv_blocks_free ≡ free)
      × ((health engine "fake").kv_blocks_total ≡ total))
    × (metrics engine ≡ ok page)
    × (free ≤ total)
    × (page.kv_utilization_pct.0 + 100 * free ≡ 100 * page.kv_utilization_pct.1)
    × (page.kv_utilization_pct.1 ≡ total)
unfolding program
pages_bounds_example = pages_bounds engine "fake" two-IsValid.conserved (omega arith)
