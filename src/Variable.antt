-- ===== src/Variable.antt =====
-- src/features/workspaces/model/workspace.ts: the variables of a workspace and its environments, without the
-- runtime states of their secrets.
use purr.Common.{ℕ, Bool, Option, String, List, Text}

pub data VariableRefresh : Type 0 where
  every_time session cached : VariableRefresh

pub data Language : Type 0 where
  jsonpath jq : Language

pub data RequestEnvironment : Type 0 where
  current_environment : RequestEnvironment
  specific_environment : String → RequestEnvironment

pub record RequestVariable : Type 0 where
  pub document_id : String
  pub expression : Text
  pub language : Language
  pub refresh : VariableRefresh
  pub cache_ttl_seconds : Option ℕ
  pub environment : RequestEnvironment

pub data VariableValue : Type 0 where
  static : (value : Text) → (secret_ref : Option String) → VariableValue
  dynamic : RequestVariable → VariableValue
  external : (provider : Text) → (key : Text) → VariableValue

pub record Variable : Type 0 where
  pub id : String
  pub name : Text
  pub enabled : Bool
  pub sensitive : Bool
  pub value : VariableValue

pub record Environment : Type 0 where
  pub id : String
  pub name : Text
  pub description : Option Text
  pub folder_id : Option String
  pub variables : List Variable
