-- ===== src/Sandbox/Agent.antt =====
-- backend/eval_triage/execution/executors.py: the tool loop of `execute_agent`. A turn of the target,
-- with the transport retries in it, is the parameter `target`: what it answers to the messages of the
-- turn. The content of a tool's message is the call, whose result the source prints as JSON.
use evalai.Base.{
  ℕ, zero, suc, ◌+◌, String, Bool, true, false, Option, none, some, List, [], ◌∷◌, ◌++◌,
}
use evalai.Base.Json.{Json, Fields}
use evalai.Sandbox.{Contract, Call, Sandbox, new_sandbox, call}

pub record ToolUse : Type 0 where
  pub tool : String
  pub arguments : Json
  pub id : Option String

pub data Message : Type 0 where
  given : String → Message
  assistant : String → List ToolUse → Message
  tool_result : Call → Message

-- A turn's result: any status but success fails it.
pub data Turn : Type 0 where
  failed : String → Option Fields → Turn
  answered : Option String → List ToolUse → Turn

pub data Ending : Type 0 where
  -- a turn failed, with its status and error
  broken : String → Option Fields → Ending
  -- the text of the last turn, if any was made, and whether the turns ran out
  finished : Option String → Bool → Ending

pub record AgentRun : Type 0 where
  pub ending : Ending
  pub sandbox : Sandbox
  pub messages : List Message
  -- the turns that the target was called for
  pub turns : List ℕ

-- `result.text or ""`
abbrev pub text_or : Option String → String
text_or none = ""
text_or (some t) = t

module _ (schema_errors : Fields → Fields → List String) (same : Json → Json → Bool)
    (show : Json → String) where
  -- `for call in result.tool_calls`
  unfoldable pub use_tools : List ToolUse → Sandbox × List Message → Sandbox × List Message
  use_tools [] state = state
  use_tools (u ∷ us) (s, messages) =
      let (made, s') = call schema_errors same show u.tool u.arguments u.id s in
      use_tools us (s', messages ++ Message.tool_result made ∷ [])

  module _ (target : ℕ → List Message → Turn) where
    -- `for turn in range(max_turns)`, with `left` turns to come; the `else` of the loop marks the last
    -- result, whose text is `text`, as truncated.
    unfoldable pub agent_loop : ℕ → ℕ → Option String → Sandbox → List Message → AgentRun
    agent_loop zero turn text s messages = record {
      ending = Ending.finished text true;
      sandbox = s;
      messages = messages;
      turns = [];
    }
    agent_loop (suc left) turn text s messages = elim (target turn messages) [
      | Turn.failed status error ↦ record {
        ending = Ending.broken status error;
        sandbox = s;
        messages = messages;
        turns = turn ∷ [];
      }
      | Turn.answered text' [] ↦ record {
        ending = Ending.finished text' false;
        sandbox = s;
        messages = messages;
        turns = turn ∷ [];
      }
      | Turn.answered text' (u ∷ us) ↦
          let state =
            use_tools (u ∷ us) (s, messages ++ Message.assistant (text_or text') (u ∷ us) ∷ []) in
          let rest = agent_loop left (turn + 1) text' state.0 state.1 in
          record {
            ending = rest.ending;
            sandbox = rest.sandbox;
            messages = rest.messages;
            turns = turn ∷ rest.turns;
          }
    ]

    unfoldable pub execute_agent : List Contract → List Message → ℕ → AgentRun
    execute_agent contracts messages max_turns =
        agent_loop max_turns 0 none (new_sandbox contracts) messages
