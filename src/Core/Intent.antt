-- ===== src/Core/Intent.antt =====
-- crates/core/src/intent.rs: what an agent proposes, and what the decision engine answers.
use ndc.Common.{ℕ, String, Option, List}
use ndc.Core.Agent.{AgentId, AgentRole}
use ndc.Core.TaskState.{TaskId, TaskState, Timestamp, QualityCheckType}

-- A path is its text (`to_string_lossy` of the program).
abbrev pub FilePath : Type 0
FilePath = String

abbrev pub MemoryId : Type 0
MemoryId = ℕ

-- A JSON value is its text: no operation of the modelled code looks into one.
abbrev pub Json : Type 0
Json = String

pub data GitOp : Type 0 where
  status : GitOp
  commit : String → GitOp
  push : GitOp
  pull : GitOp
  branch : String → GitOp
  checkout : String → GitOp

pub data TestType : Type 0 where
  unit integration all : TestType

pub record TaskSpec : Type 0 where
  pub title : String
  pub description : String
  pub task_type : String

pub data KnowledgeType : Type 0 where
  code_snippet documentation decision pattern_knowledge tutorial : KnowledgeType

pub record KnowledgeSpec : Type 0 where
  pub title : String
  pub content : String
  pub knowledge_type : KnowledgeType

pub data Action : Type 0 where
  read_file : FilePath → Action
  write_file : FilePath → String → Action
  create_file : FilePath → Action
  delete_file : FilePath → Action
  run_command : String → List String → Action
  git : GitOp → Action
  modify_memory : MemoryId → String → Action
  create_task : TaskSpec → Action
  update_task_state : TaskId → TaskState → Action
  search_knowledge : String → Action
  save_knowledge : KnowledgeSpec → Action
  run_tests : TestType → Action
  run_quality_check : QualityCheckType → Action
  request_human : String → String → Action
  other : String → Json → Action

pub data FileOp : Type 0 where
  read write create delete : FileOp

pub data MemoryOp : Type 0 where
  read write update delete : MemoryOp

pub data InteractionType : Type 0 where
  approval decision information : InteractionType

pub data Effect : Type 0 where
  file_operation : FilePath → FileOp → Effect
  task_transition : TaskId → TaskState → TaskState → Effect
  memory_operation : MemoryId → MemoryOp → Effect
  tool_invocation : String → List String → Effect
  human_interaction : InteractionType → Effect

pub record Intent : Type 0 where
  pub id : ℕ  -- `IntentId`, a ulid
  pub agent : AgentId
  pub agent_role : AgentRole
  pub proposed_action : Action
  pub effects : List Effect
  pub reasoning : String
  pub task_id : Option TaskId
  pub timestamp : Timestamp

pub data PrivilegeLevel : Type 0 where
  normal elevated high critical : PrivilegeLevel

-- The discriminants, by which the derived order compares.
abbrev pub level : PrivilegeLevel → ℕ
level normal = 0
level elevated = 1
level high = 2
level critical = 3

pub data ConditionType : Type 0 where
  must_pass_tests must_pass_lint must_review must_document : ConditionType
  require_privilege : PrivilegeLevel → ConditionType
  custom : String → ConditionType

pub record Condition : Type 0 where
  pub condition_type : ConditionType
  pub description : String

pub data ErrorCode : Type 0 where
  unauthorized out_of_scope dangerous_operation invalid_action dependency_not_met : ErrorCode
  insufficient_privilege : PrivilegeLevel → PrivilegeLevel → ErrorCode

pub data RiskLevel : Type 0 where
  low medium high critical : RiskLevel

pub record HumanContext : Type 0 where
  pub task_id : Option TaskId
  pub affected_files : List FilePath
  pub risk_level : RiskLevel
  pub alternatives : List Action
  pub required_privilege : PrivilegeLevel

pub data InformationSource : Type 0 where
  human memory external_api : InformationSource

pub record InformationRequirement : Type 0 where
  pub description : String
  pub source : InformationSource

pub data Verdict : Type 0 where
  allow : Action → PrivilegeLevel → List Condition → Verdict
  deny : Action → String → ErrorCode → Verdict
  require_human : Action → String → HumanContext → Option ℕ → Verdict
  modify : Action → Action → String → List String → Verdict
  defer : Action → List InformationRequirement → Option ℕ → Verdict
