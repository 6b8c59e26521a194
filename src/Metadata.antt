-- ===== src/Metadata.antt =====
-- metadata/reader.go and the service record of provision/services.go. The decoding of the YAML file
-- is a library's; a document that was decoded has these fields.
use cfdev.Common.{String, Bool, List}
use cfdev.Common.Int.{ℤ}

pub record Service : Type 0 where
  pub name : String
  pub flagname : String
  pub script : String
  pub deployment : String
  pub is_errand : Bool

pub record Version : Type 0 where
  pub name : String
  pub value : String

pub record Metadata : Type 0 where
  pub version : String
  pub message : String
  pub deployment_name : String
  pub analytics_message : String
  pub default_memory : ℤ
  pub services : List Service
  pub versions : List Version
