-- ===== src/Approval/Project/Tests.antt =====
-- A project that adds two servers and a script tool.
use Prim.Native.String.{◌++◌}
use mcp_adapter.Prelude.{String, true, false, [], ◌∷◌, ◌==◌, ◌≡◌, refl, Map, get, contains, length}
use mcp_adapter.Json.{Value, str, obj, Members, no_members, member}
use mcp_adapter.Approval.Project.{
  TrustPlatform, TrustGate, TrustResult, denied, disable, apply_project_server_trust,
}
use mcp_adapter.Approval.Project.Laws.{
  may_run, may_register, apply_project_server_trust-may_run,
  apply_project_server_trust-may_register,
}

-- Every order is the order given, and the text of an object is the text of its first member.
abbrev first_text : Value → String
first_text (obj (member k (str s) ms)) = s
first_text v = ""

abbrev platform : TrustPlatform
platform = record { locale_not_after = λ j k. true; json_text = first_text; sha256 = λ s. "#" ++ s }

abbrev files : Members
files = member "command" (str "files") no_members

abbrev web : Members
web = member "command" (str "web") no_members

abbrev gate : TrustGate
gate = record {
  project_trusted = true;
  interactive = true;
  allow_option = false;
  policy_allows = true;
  project_root = "/work";
  approvals =
      record {
        project_root = "/work";
        server_name = "files";
        definition_hash = "#files";
        approved_at = "then";
        is_script_tool = false;
      }
      ∷ [];
  choose_server = λ name. false;
  choose_script_tool = λ name. name == "report";
  now = "now";
}

abbrev servers : Map Members
servers = ("files", files) ∷ ("web", web) ∷ []

abbrev script_tools : Map Members
script_tools = ("report", member "file" (str "report.ts") no_members) ∷ []

abbrev result : TrustResult
result =
    apply_project_server_trust platform gate ("files" ∷ "web" ∷ []) ("report" ∷ []) servers
      script_tools

trust_tests :
    (result.servers ≡ ("files", files) ∷ ("web", disable web) ∷ [])
    × (result.blocked_servers ≡ ("web", denied) ∷ [])
    × (result.script_tools ≡ script_tools)
    × (length result.store ≡ 2)
unfolding apply_project_server_trust disable
trust_tests = (refl, refl, refl, refl)

web_there : contains "web" ("files" ∷ "web" ∷ []) ≡ true
unfolding contains
web_there = refl

report_there : contains "report" ("report" ∷ []) ≡ true
unfolding contains
report_there = refl

apply_project_server_trust-may_run_example :
    may_run platform gate "web" (
      get "web"
        (apply_project_server_trust platform gate
          ("files" ∷ "web" ∷ [])
          []
          servers
          script_tools).servers)
    ≡ true
apply_project_server_trust-may_run_example =
    apply_project_server_trust-may_run platform gate ("files" ∷ "web" ∷ []) [] servers script_tools
      "web" web_there

apply_project_server_trust-may_register_example :
    may_register platform gate "report" (
      get "report"
        (apply_project_server_trust platform gate []
          ("report" ∷ [])
          servers
          script_tools).script_tools)
    ≡ true
apply_project_server_trust-may_register_example =
    apply_project_server_trust-may_register platform gate [] ("report" ∷ []) servers script_tools
      "report" report_there
