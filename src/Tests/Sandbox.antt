-- ===== src/Tests/Sandbox.antt =====
-- An agent that deletes a file: first unconfirmed, then confirmed.
use evalai.Base.{
  if◌then◌else◌, ℕ, zero, suc, ◌≤◌, String, Bool, true, false, none, some, List, [], ◌∷◌, ◌≡◌, refl,
  length,
}
use evalai.Base.Json.{Json, bool, str, obj, null, Fields, end, field}
use evalai.Refs.{span}
use evalai.Sandbox.{
  Contract, new_sandbox, call, checked, check_call, is_confirmed, plain, format_effect, substitute,
  answer, match_place,
}
use evalai.Sandbox.Safety.{IsSound}
use evalai.Sandbox.Agent.{Message, Turn, use_tools, agent_loop, execute_agent}
use evalai.Sandbox.Turns.{is_truncated, execute_agent-IsSound, execute_agent-turns}
use evalai.Retry.{range_from}

abbrev accepts : Fields → Fields → List String
accepts schema arguments = []

abbrev never : Json → Json → Bool
never v w = false

abbrev text_of : Json → String
text_of (str s) = s
text_of _ = "?"

abbrev remover : Contract
remover = record {
  name = "delete_file";
  description = "Deletes a file";
  arguments_schema = end;
  requires_confirmation = true;
  fixtures = [];
  default_return = null;
  effects = "deleted {path}" ∷ [];
}

abbrev target : ℕ → List Message → Turn
target zero messages =
    Turn.answered none (
      record { tool = "delete_file"; arguments = obj (field "path" (str "a") end); id = none } ∷ [])
target (suc zero) messages = Turn.answered none (
    record {
      tool = "delete_file";
      arguments = obj (field "path" (str "a") (field "confirmed" (bool true) end));
      id = none;
    }
    ∷ [])
target (suc (suc n)) messages = Turn.answered (some "done") []

one_effect :
    (execute_agent accepts never text_of target (remover ∷ []) [] 8).sandbox.effects
    ≡ "deleted a" ∷ []
unfolding execute_agent agent_loop use_tools new_sandbox call checked check_call is_confirmed plain
    format_effect answer match_place span substitute
one_effect = refl

three_turns :
    (execute_agent accepts never text_of target (remover ∷ []) [] 8).turns ≡ 0 ∷ 1 ∷ 2 ∷ []
unfolding execute_agent agent_loop
three_turns = refl

execute_agent-IsSound_example :
    IsSound accepts never text_of
      (execute_agent accepts never text_of target (remover ∷ []) [] 8).sandbox
execute_agent-IsSound_example =
    execute_agent-IsSound accepts never text_of target (remover ∷ []) [] 8

execute_agent-turns_example :
    let r = execute_agent accepts never text_of target (remover ∷ []) [] 8 in
    (length r.turns ≤ 8)
    × (r.turns ≡ range_from 0 (length r.turns))
    × ((if is_truncated r.ending then length r.turns else 8) ≡ 8)
execute_agent-turns_example = execute_agent-turns accepts never text_of target (remover ∷ []) [] 8
