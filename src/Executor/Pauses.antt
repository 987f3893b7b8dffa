-- ===== src/Executor/Pauses.antt =====
-- executor-pauses.ts: which connections are Executor's, how a pause is read from a result, and the
-- loop that answers the pauses of one call.
pub mod Laws
mod Tests
use mcp_adapter.Prelude.{
  ℕ, zero, suc, String, Bool, true, false, not, ◌&&◌, ◌||◌, Option, none, some, List, [], ◌∷◌, ◌==◌,
  if◌then◌else◌, any, find, is_some,
}
use mcp_adapter.Json.{Value, undefined, obj, str, Members, no_members, own, prop, is_str}
use mcp_adapter.Connection.Failure.{Failure}
use mcp_adapter.Connection.Recovery.{Awaited, resolved, rejected}

-- What the adapter reads of a listed tool.
pub record Tool : Type 0 where
  pub name : String
  pub input_schema : Value

-- `isRecord(value) ? value.key : undefined`
abbrev prop_of : String → Value → Value
prop_of key (obj members) = prop key members
prop_of key _ = undefined

-- `isRecord(value) && key in value`, for own keys.
abbrev has_key : String → Value → Bool
has_key key (obj members) = is_some (own key members)
has_key key _ = false

abbrev schema_of : Option Tool → Value
schema_of none = undefined
schema_of (some tool) = tool.input_schema

unfoldable pub has_executor_model_tools : List Tool → Bool
has_executor_model_tools tools =
    let properties = prop_of "properties" (schema_of (find (λ t. t.name == "resume") tools)) in
    any (λ t. t.name == "execute") tools
    && any (λ t. t.name == "call") tools
    && has_key "requestId" properties
    && has_key "response" properties

-- The first argument is the name in the server's version, if it reports one.
unfoldable pub is_executor_connection : Option String → List Tool → Bool
unfolding has_executor_model_tools
is_executor_connection none tools = has_executor_model_tools tools
is_executor_connection (some name) tools = name == "Executor" && has_executor_model_tools tools

pub record ExecutorPause : Type 0 where
  pub is_approval : Bool
  pub request_id : String
  pub message : String
  pub requested_schema : Members

pub data Parsed : Type 0 where
  no_pause malformed : Parsed
  pause : ExecutorPause → Parsed

abbrev is_empty : Members → Bool
is_empty no_members = true
is_empty _ = false

parse_form : Bool → Value → Value → Value → Value → Value → Value → Parsed
parse_form is_approval (str id) mode (str message) (obj schema) type (obj properties) =
    if not (id == "")
      && is_str mode "form"
      && is_str type "object"
      && (not is_approval || is_empty properties)
    then pause record {
      is_approval = is_approval;
      request_id = id;
      message = message;
      requested_schema = schema;
    }
    else malformed
parse_form is_approval id mode message schema type properties = malformed

parse_with : Bool → Value → Value → Parsed
unfolding parse_form
parse_with is_approval id elicitation =
    let schema = prop_of "requestedSchema" elicitation in
    parse_form is_approval id (prop_of "mode" elicitation) (prop_of "message" elicitation) schema
      (prop_of "type" schema) (prop_of "properties" schema)

-- A pause in a result's structured content.
unfoldable pub parse_executor_pause : Value → Parsed
unfolding parse_with
parse_executor_pause (obj content) =
    let status = prop "status" content in
    if is_str status "approval-required"
    then parse_with true (prop "requestId" content) (prop "elicitation" content)
    else if is_str status "input-required"
    then parse_with false (prop "requestId" content) (prop "elicitation" content)
    else no_pause
parse_executor_pause content = no_pause

pub data Action : Type 0 where
  accept decline cancel : Action

-- Pi's answer to an elicitation, with the content it may have.
pub record Decision : Type 0 where
  pub action : Action
  pub content : Value

-- What `resume` is called with.
pub data Response : Type 0 where
  bare_accept : Response
  decided : Decision → Response

unfoldable pub response_to : Bool → Decision → Response
response_to is_approval decision = elim decision.action [
  | accept ↦ (if is_approval then bare_accept else decided decision)
  | decline ↦ decided decision
  | cancel ↦ decided decision
]

pub data Request : Type 0 where
  original : Request
  resume : (request_id : String) → Response → Request

-- How a call ends: with the server's result, with a text of the adapter, or with an error.
pub data Ended {ℓ} (T : Type ℓ) : Type ℓ where
  result : T → Ended T
  text : (message : Value) (is_error : Bool) → Ended T
  needs_interactive : (is_approval : Bool) → Ended T
  threw : Failure → Ended T
  malformed_pause too_many_pauses request_aborted : Ended T
  resume_failed : Failure → Ended T

pub record Executor {ℓ κ} (W : Type ℓ) (T : Type κ) : Type (ℓ ⊔ κ) where
  pub structured_content : T → Value
  pub is_error : T → Bool
  pub call : Request → W → Awaited T × W
  pub prompt_form_elicitation : ExecutorPause → W → Awaited (Option Decision) × W
  pub aborted : W → Bool

abbrev pub max_executor_pauses : ℕ
max_executor_pauses = 16

abbrev pub still_answering : Value
still_answering =
    str "Executor is still answering an earlier request for this call; try the call again."

-- `typeof value === "string"`
abbrev pub is_text : Value → Bool
is_text (str s) = true
is_text _ = false

abbrev message_or_default : Value → Value
message_or_default (str s) = str s
message_or_default _ = still_answering

-- `isRecord(content) && typeof content.requestId === "string"`
abbrev pub holds_request_id : Value → Bool
holds_request_id content = is_text (prop_of "requestId" content)

module _ {ℓ κ} {W : Type ℓ} {T : Type κ} (executor : Executor W T) where
  unfoldable pub redact_executor_outcome : T → Ended T
  redact_executor_outcome r =
      let content = executor.structured_content r in
      if holds_request_id content
      then text (message_or_default (prop_of "message" content)) (executor.is_error r)
      else result r

  -- `next` goes on with the result of the resumed program.
  after_resume : (T → W → Ended T × W) → Awaited T × W → Ended T × W
  after_resume next (resolved r, w) = next r w
  after_resume next (rejected failure, w) =
      if executor.aborted w then (threw failure, w) else (resume_failed failure, w)

  after_prompt : (T → W → Ended T × W) → ExecutorPause → Awaited (Option Decision) × W → Ended T × W
  unfolding after_resume response_to
  after_prompt next p (rejected failure, w) = (threw failure, w)
  after_prompt next p (resolved none, w) = (needs_interactive p.is_approval, w)
  after_prompt next p (resolved (some decision), w) =
      if executor.aborted w
      then (request_aborted, w)
      else after_resume next
          (executor.call (resume p.request_id (response_to p.is_approval decision)) w)

  -- One round, by what is read from the last result.
  round : (ExecutorPause → W → Ended T × W) → T → W → Parsed → Ended T × W
  unfolding redact_executor_outcome
  round on_pause r w no_pause = (redact_executor_outcome r, w)
  round on_pause r w malformed = (malformed_pause, w)
  round on_pause r w (pause p) = on_pause p w

  -- The loop, with the number of pauses that it may still answer.
  answer_rest : ℕ → T → W → Ended T × W
  unfolding round after_prompt parse_executor_pause
  answer_rest zero r w =
      round (λ p v. (too_many_pauses, v)) r w (parse_executor_pause (executor.structured_content r))
  answer_rest (suc n) r w =
      round (λ p v. after_prompt (answer_rest n) p (executor.prompt_form_elicitation p v)) r w
        (parse_executor_pause (executor.structured_content r))

  after_call : Awaited T × W → Ended T × W
  unfolding answer_rest
  after_call (rejected failure, w) = (threw failure, w)
  after_call (resolved r, w) = answer_rest max_executor_pauses r w

  unfoldable pub answer_pauses : W → Ended T × W
  unfolding after_call
  answer_pauses w = after_call (executor.call original w)
