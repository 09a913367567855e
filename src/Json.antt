-- ===== src/Json.antt =====
-- encoding/json as the program uses it: a text is taken as the JSON value that it writes, and the
-- structs go to and from such values by their tags. How the text itself is read is left out.
pub mod Encode
pub mod Decode
pub mod RoundTrip
use r2_notify_server.Prelude.{ℕ, String, Bool, Result}
use r2_notify_server.Models.{Time}

mutual
  pub data Json : Type 0 where
    null : Json
    bool : Bool → Json
    num : ℕ → Json
    str : String → Json
    arr : Items → Json
    obj : Fields → Json

  pub data Items : Type 0 where
    nil : Items
    cons : Json → Items → Items

  pub data Fields : Type 0 where
    end : Fields
    field : String → Json → Fields → Fields

-- A byte slice: empty, no JSON text, or the text of a value.
pub data Bytes : Type 0 where
  empty : Bytes
  malformed : Bytes
  json : Json → Bytes

-- The text of a time.Time in JSON, RFC 3339: writing it fails outside the years 0 to 9999.
pub record TimeText : Type 0 where
  pub format : Time → Result String
  pub parse : String → Result Time
