-- ===== src/Registry.antt =====
-- The registry of artifacts in psn_drive/vault.py: entities, artifacts with their permissions, and
-- sanctions, with the tables of psn_drive/database.py that hold them.
pub mod Manifest
pub mod Register
pub mod Listing
pub mod Sanctions
pub mod Effect
pub mod Status
mod Tests
use personal_secure_node.Prelude.{ℕ, Text, codes, Bool, Option, List, [], ◌∷◌, any, text_eq}
use personal_secure_node.Json.{Json}

pub record Entity : Type 0 where
  pub id : Text
  pub type : Text
  pub name : Text
  pub parent_id : Option Text
  pub verified : Bool
  pub created_at : ℕ
  pub updated_at : ℕ

-- `manifest` is the value whose JSON text the row has.
pub record Artifact : Type 0 where
  pub id : Text
  pub kind : Text
  pub name : Text
  pub version : Text
  pub publisher_id : Text
  pub author_id : Text
  pub entry : Option Text
  pub is_enabled : Bool
  pub manifest : Json
  pub created_at : ℕ
  pub updated_at : ℕ

pub record Permission : Type 0 where
  pub artifact_id : Text
  pub capability : Text
  pub resource : Text
  pub description : Json

pub data Scope : Type 0 where
  self children all_children : Scope

pub data Action : Type 0 where
  deny require_confirmation : Action

pub record Sanction : Type 0 where
  pub id : ℕ
  pub target_entity_id : Text
  pub scope : Scope
  pub action : Action
  pub reason : Json
  pub created_at : ℕ
  pub revoked_at : Option ℕ

pub record Tables : Type 0 where
  pub entities : List Entity
  pub artifacts : List Artifact
  pub permissions : List Permission
  pub sanctions : List Sanction

abbrev pub no_tables : Tables
no_tables = record { entities = []; artifacts = []; permissions = []; sanctions = [] }

-- `value in (…)`
abbrev pub one_of : Text → List Text → Bool
one_of t ts = any (λ s. text_eq t s) ts
