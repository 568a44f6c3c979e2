-- ===== src/Schema/JsonValue.antt =====
-- Parsed JSON, as payloads (`payload`) and job templates (`job_template`) hold it. A number is kept
-- as its text, since the code only passes it on.
use chronos_job_scheduler.Prelude.{String, str_eq, Bool, Option, none, some, if◌then◌else◌}

mutual
  pub data Json : Type 0 where
    null : Json
    boolean : Bool → Json
    number : String → Json
    text : String → Json
    array : Items → Json
    object : Fields → Json

  pub data Items : Type 0 where
    nil : Items
    cons : Json → Items → Items

  pub data Fields : Type 0 where
    end : Fields
    field : String → Json → Fields → Fields

-- `v.name` on a value that is an object; `none` is `undefined`.
abbrev pub lookup_field : String → Fields → Option Json
lookup_field k end = none
lookup_field k (field j v fs) = if str_eq j k then some v else lookup_field k fs

-- `typeof v === "object" && v !== null && name in v && typeof v.name === "string"`, with the text.
abbrev pub text_of : Option Json → Option String
text_of (some (Json.text s)) = some s
text_of _ = none

abbrev pub text_field : String → Json → Option String
text_field k (Json.object fs) = text_of (lookup_field k fs)
text_field k _ = none

-- `v.name` read from a value of any kind.
abbrev pub member : String → Json → Option Json
member k (Json.object fs) = lookup_field k fs
member k _ = none
