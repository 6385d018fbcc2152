-- ===== src/Sandbox.antt =====
-- backend/eval_triage/execution/sandbox.py: the sandboxed tools of an agent scenario. The schema checker
-- is a library, and so the parameter `schema_errors`; Python's `==` and `str` on JSON values, which also
-- compare and print floats, are `same` and `show`. A refused call keeps its error, and the dictionary
-- that spells it out for the model is left out.
pub mod Safety
pub mod Placeholders
pub mod Agent
pub mod Turns
use Prim.Native.Char.{code}
use evalai.Base.{
  ℕ, zero, suc, ◌+◌, String, Bool, true, false, not, ◌&&◌, ◌||◌, Option, none, some, List, [], ◌∷◌,
  ◌++◌, ◌==◌, nat_eq, string_eq, if◌then◌else◌, length, map,
}
use evalai.Base.Assoc.{lookup, insert}
use evalai.Base.Json.{Json, null, bool, str, obj, Fields, end, field, get_field, set_field}
use evalai.Base.Text.{str_append, decimal}
use evalai.Refs.{between, size, span}

pub record Fixture : Type 0 where
  pub when_args : Fields
  pub returns : Json

pub record Contract : Type 0 where
  pub name : String
  pub description : String
  pub arguments_schema : Fields
  pub requires_confirmation : Bool
  pub fixtures : List Fixture
  pub default_return : Json
  pub effects : List String

pub data ToolError : Type 0 where
  unknown_tool not_an_object confirmation_required : ToolError
  invalid_arguments : List String → ToolError

pub record Call : Type 0 where
  pub id : String
  pub tool : String
  pub arguments : Json
  pub effects : List String
  pub valid_arguments : Bool
  pub confirmed : Option Bool
  pub error : Option ToolError
  pub result : Json

pub record Sandbox : Type 0 where
  pub contracts : List (String × Contract)
  pub calls : List Call
  pub effects : List String

by_name : List (String × Contract) → List Contract → List (String × Contract)
by_name d [] = d
by_name d (c ∷ cs) = by_name (insert c.name c d) cs

-- `ToolSandbox(contracts)`
unfoldable pub new_sandbox : List Contract → Sandbox
unfolding by_name
new_sandbox cs = record { contracts = by_name [] cs; calls = []; effects = [] }

abbrev or_object : Fields → Fields
or_object end = field "type" (str "object") end
or_object (field k v fs) = field k v fs

abbrev fields_of : Option Json → Fields
fields_of (some (obj fs)) = fs
fields_of _ = end

abbrev confirmed_property : Json
confirmed_property = obj (
    field "type" (str "boolean")
      (field "description" (str "Set true only after the user explicitly confirmed.") end))

-- The schema that `definitions` shows of a contract; the declared properties are a dictionary.
unfoldable pub shown_schema : Contract → Fields
shown_schema c =
    let schema = or_object c.arguments_schema in
    if c.requires_confirmation
    then set_field "properties"
        (obj (set_field "confirmed" confirmed_property (fields_of (get_field "properties" schema))))
        schema
    else schema

unfoldable pub definitions : Sandbox → List (String × String × Fields)
definitions s =
    map (λ (e : String × Contract). (e.1.name, e.1.description, shown_schema e.1)) s.contracts

-- `arguments.get("confirmed") is True`
unfoldable pub is_confirmed : Fields → Bool
is_confirmed arguments = elim (get_field "confirmed" arguments) [
  | some (bool true) ↦ true
  | _ ↦ false
]

-- The arguments without `confirmed`
unfoldable pub plain : Fields → Fields
plain end = end
plain (field k v fs) = let rest = plain fs in if k == "confirmed" then rest else field k v rest

abbrev pub is_place : ℕ → Bool
is_place c = between b'a' b'z' c || (between b'0' b'9' c || c == b'_')

abbrev pub closed : String → String → Option (String × String)
closed name String.[] = none
closed name (String.◌∷◌ c rest) = if code c == b'}' then some (name, rest) else none

-- `[a-z_][a-z0-9_]{0,63}\}`, behind the brace that opens a placeholder.
unfoldable pub match_place : String → Option (String × String)
match_place String.[] = none
match_place (String.◌∷◌ c s) =
    let more = span 63 is_place s in
    if between b'a' b'z' (code c) || code c == b'_'
    then closed (String.◌∷◌ c more.0) more.1
    else none

module _ (schema_errors : Fields → Fields → List String) (same : Json → Json → Bool)
    (show : Json → String) where
  -- `str(arguments.get(name, ""))`
  abbrev pub shown : Fields → String → String
  shown arguments name = elim (get_field name arguments) [ none ↦ "" | some v ↦ show v ]

  -- `_PLACEHOLDER.sub`: each round takes a character at least, so the size is fuel enough.
  unfoldable pub substitute : ℕ → Fields → String → String
  substitute fuel arguments String.[] = ""
  substitute zero arguments (String.◌∷◌ c s) = String.◌∷◌ c s
  substitute (suc fuel) arguments (String.◌∷◌ c s) =
      let plain_rest = String.◌∷◌ c (substitute fuel arguments s) in
      elim (if code c == b'{' then match_place s else none) [
        | none ↦ plain_rest
        | some (name, rest) ↦ str_append (shown arguments name) (substitute fuel arguments rest)
      ]

  unfoldable pub format_effect : Fields → String → String
  format_effect arguments template = substitute (size template) arguments template

  -- `arguments.get(k) == v`, where a missing key gives `None`
  abbrev or_null : Option Json → Json
  or_null none = null
  or_null (some v) = v

  unfoldable pub matches : Fields → Fields → Bool
  matches end arguments = true
  matches (field k v when_args) arguments =
      same (or_null (get_field k arguments)) v && matches when_args arguments

  unfoldable pub answer : List Fixture → Json → Fields → Json
  answer [] default arguments = default
  answer (f ∷ fs) default arguments =
      if matches f.when_args arguments then f.returns else answer fs default arguments

  abbrev pub refuse : Call → ToolError → Bool → Option Bool → Call
  refuse call e valid confirmed = record call {
    error = some e;
    valid_arguments = valid;
    confirmed = confirmed;
  }

  abbrev is_empty : List String → Bool
  is_empty [] = true
  is_empty (x ∷ xs) = false

  -- The end of `call`: the tool is declared, its arguments are valid and confirmed where it asks for that.
  abbrev pub perform : Contract → Fields → Option Bool → Call → Call
  perform c arguments confirmed call = record call {
    result = answer c.fixtures c.default_return arguments;
    effects = map (format_effect arguments) c.effects;
    confirmed = confirmed;
  }

  unfoldable pub check_call : Contract → Json → Call → Call
  check_call c (obj fs) call =
      let arguments = plain fs in
      let errors = schema_errors c.arguments_schema arguments in
      if not (is_empty errors)
      then refuse call (ToolError.invalid_arguments errors) false none
      else if c.requires_confirmation
      then (if is_confirmed fs
          then perform c arguments (some true) call
          else refuse call ToolError.confirmation_required true (some false))
      else perform c arguments none call
  check_call c v call = refuse call ToolError.not_an_object false none

  -- `call_id or f"call_{len(self.calls) + 1}"`
  abbrev call_name : Option String → Sandbox → String
  call_name none s = str_append "call_" (decimal (length s.calls + 1))
  call_name (some id) s = if id == "" then str_append "call_" (decimal (length s.calls + 1)) else id

  abbrev pub blank : String → Json → Option String → Sandbox → Call
  blank tool arguments call_id s = record {
    id = call_name call_id s;
    tool = tool;
    arguments = arguments;
    effects = [];
    valid_arguments = true;
    confirmed = none;
    error = none;
    result = null;
  }

  unfoldable pub checked : String → Json → Call → Option Contract → Call
  checked tool arguments call none = refuse call ToolError.unknown_tool false none
  checked tool arguments call (some c) = check_call c arguments call

  unfoldable pub call : String → Json → Option String → Sandbox → Call × Sandbox
  call tool arguments call_id s =
      let made =
        checked tool arguments (blank tool arguments call_id s) (lookup tool s.contracts) in
      (made, record s { calls = s.calls ++ made ∷ []; effects = s.effects ++ made.effects })
