-- ===== src/Core/MemoryEntry.antt =====
-- crates/core/src/memory.rs: the entry of a memory. An `f32` is its bit pattern.
use ndc.Common.{ℕ, String, Bool, Option, List}
use ndc.Core.Agent.{AgentId}
use ndc.Core.Intent.{MemoryId}
use ndc.Core.Memory.{MemoryStability, AccessControl}
use ndc.Core.TaskState.{TaskId, Timestamp}

abbrev pub Float32 : Type 0
Float32 = ℕ

pub record FunctionInfo : Type 0 where
  pub name : String
  pub signature : String
  pub description : String

pub record CodeKnowledge : Type 0 where
  pub file_path : String
  pub language : String
  pub summary : String
  pub functions : List FunctionInfo

pub record ProjectStructure : Type 0 where
  pub root_path : String
  pub directories : List String
  pub important_files : List String

pub record ParameterInfo : Type 0 where
  pub name : String
  pub param_type : String
  pub required : Bool

pub record ApiDoc : Type 0 where
  pub endpoint : String
  pub method : String
  pub parameters : List ParameterInfo
  pub return_type : String

pub record DecisionRecord : Type 0 where
  pub decision : String
  pub rationale : String
  pub alternatives : List String
  pub made_by : AgentId

pub record ErrorSolution : Type 0 where
  pub error : String
  pub solution : String
  pub prevention : String

pub record TestResult : Type 0 where
  pub test_name : String
  pub passed : Bool
  pub output : String
  pub timestamp : Timestamp

pub data MemoryContent : Type 0 where
  code : CodeKnowledge → MemoryContent
  project_structure : ProjectStructure → MemoryContent
  api_documentation : ApiDoc → MemoryContent
  decision : DecisionRecord → MemoryContent
  error_solution : ErrorSolution → MemoryContent
  test_result : TestResult → MemoryContent
  -- The text and the metadata.
  general : String → String → MemoryContent

pub data RelationType : Type 0 where
  dependency reference implementation related contradicts : RelationType

pub record Relation : Type 0 where
  pub target : MemoryId
  pub relation_type : RelationType
  pub strength : Float32

pub record MemoryMetadata : Type 0 where
  pub stability : MemoryStability
  pub created_at : Timestamp
  pub created_by : AgentId
  pub source_task : TaskId
  pub version : ℕ
  pub modified_at : Option Timestamp
  pub tags : List String

pub record MemoryEntry : Type 0 where
  pub id : MemoryId
  pub content : MemoryContent
  pub embedding : List Float32
  pub relations : List Relation
  pub metadata : MemoryMetadata
  pub access_control : AccessControl
