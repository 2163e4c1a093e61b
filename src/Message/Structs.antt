-- ===== src/Message/Structs.antt =====
-- Each struct of puffboy_advance/shared/command.h: the types of its fields in their order, and the
-- record of Message that it is.
pub mod Requests
pub mod Responses
use net_bsd_wii_joybus.Base.{◌≡◌, Option, some, List}
use net_bsd_wii_joybus.Message.Layout.{Field, Value}

-- A struct: its layout, and the passage between its record and the values of its fields.
pub record Struct (A : Type 0) : Type 0 where
  pub fields : List Field
  pub values : A → List Value
  pub of_values : List Value → Option A
  pub of_values_lem : (a : A) → of_values (values a) ≡ some a
