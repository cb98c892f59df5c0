-- ===== src/Directory.antt =====
-- The schemas of the members and of the lots (frontend/src/app/core/api/openapi.ts), which the
-- directory, the dashboard and the e-mails of a budget read. A lot lists its members and a member
-- its lots: each type takes what the other one lists as a parameter.
use asl_bissieux.Prelude.{ℕ, List, Option}
use asl_bissieux.Prelude.Strings.{String}

-- `ModelsMember`
pub record Member (U : Type 0) : Type 0 where
  pub id : Option String
  pub first_name : Option String
  pub last_name : Option String
  pub email : Option String
  pub phone_number : Option String
  pub address : Option String
  pub units : Option (List U)

-- `ModelsUnit`
pub record Lot (M : Type 0) : Type 0 where
  pub id : Option String
  pub number : Option ℕ
  pub address : Option String
  pub members : Option (List M)
