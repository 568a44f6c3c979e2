-- ===== src/Handlers.antt =====
-- worker/src/handlers: the registry and the three handlers, as one `Handle` of the executor. What
-- `JSON.stringify`, `fetch`, number formatting and the functions that every JavaScript object inherits
-- do is in `Environment`. Sleeping and closing the socket leave no trace here.
pub mod Failures
mod Tests
use Prim.Native.String.{◌++◌ as text_append}
use chronos_job_scheduler.Prelude.{
  ℕ, String, str_eq, Bool, true, false, ◌||◌, Option, none, some, List, [], ◌∷◌, if◌then◌else◌,
  includes,
}
use chronos_job_scheduler.Schema.JsonValue.{
  Json, null, text, number, boolean, array, object, text_field, member,
}
use chronos_job_scheduler.Executor.{LogEntry, Handle}

-- What `fetch` and draining the body answer.
pub data FetchAnswer : Type 0 where
  failed : String → FetchAnswer
  answered : (ok : Bool) (status_line : String) (content_length : Option String) → FetchAnswer
  body_failed :
      (ok : Bool) (status_line : String) (content_length : Option String) (message : String)
      → FetchAnswer

-- `inherited` gives the error that an inherited function throws, if it throws.
pub record Environment : Type 0 where
  pub stringify : Json → String
  pub sleep_ms : String
  pub is_zero : String → Bool
  pub length_of : Json → String
  pub fetch : String → Option Json → FetchAnswer
  pub inherited : String → Json → Option String

infixr 65 ◌◇◌
abbrev ◌◇◌ : String → String → String
s ◇ t = text_append s t

pub data HandlerName : Type 0 where
  echo http_request send_email : HandlerName

-- `handlers[type]`: an entry, or a property of `Object.prototype`, or nothing.
pub data Lookup : Type 0 where
  registered : HandlerName → Lookup
  inherited_property : Lookup
  missing : Lookup

abbrev pub is_one_of : String → List String → Bool
is_one_of s [] = false
is_one_of s (t ∷ ts) = str_eq s t || is_one_of s ts

abbrev pub inherited_names : List String
inherited_names =
    "constructor" ∷ "hasOwnProperty" ∷ "isPrototypeOf" ∷ "propertyIsEnumerable" ∷ "toLocaleString"
    ∷ "toString" ∷ "valueOf" ∷ "__defineGetter__" ∷ "__defineSetter__" ∷ "__lookupGetter__"
    ∷ "__lookupSetter__" ∷ "__proto__" ∷ []

pub get_handler : String → Lookup
get_handler type =
    if str_eq type "echo"
    then registered echo
    else if str_eq type "http_request"
    then registered http_request
    else if str_eq type "send_email"
    then registered send_email
    else if is_one_of type inherited_names
    then inherited_property
    else missing

abbrev pub entry : String → String → LogEntry
entry level message = record { level = level; message = message }

pub echo_handler : Environment → Json → List LogEntry × Option String
echo_handler env payload = (
  entry "info" ("Echo handler received payload: " ◇ env.stringify payload)
      ∷ entry "debug" ("Sleeping " ◇ env.sleep_ms ◇ "ms to simulate work")
      ∷ entry "info" "Echo complete � returned payload as-is"
      ∷ [],
  none,
)

abbrev pub length_note : Option String → String
length_note none = ""
length_note (some n) = if str_eq n "" then "" else " (Content-Length: " ◇ n ◇ ")"

abbrev pub fetched : Bool → String → String → Option String → LogEntry
fetched ok url status_line content_length =
    entry (if ok then "info" else "warn")
      ("GET " ◇ url ◇ " ? " ◇ status_line ◇ length_note content_length)

abbrev pub fetch_error : String → String → LogEntry
fetch_error url message = entry "error" ("GET " ◇ url ◇ " failed: " ◇ message)

abbrev pub report : String → FetchAnswer → List LogEntry × Option String
report url (failed message) = (fetch_error url message ∷ [], some message)
report url (answered ok status_line content_length) =
    (fetched ok url status_line content_length ∷ [], none)
report url (body_failed ok status_line content_length message) =
    (fetched ok url status_line content_length ∷ fetch_error url message ∷ [], some message)

abbrev pub prefixed : LogEntry → List LogEntry × Option String → List LogEntry × Option String
prefixed e (es, error) = (e ∷ es, error)

pub http_request_handler : Environment → Json → List LogEntry × Option String
http_request_handler env payload = elim (text_field "url" payload) [
  | none ↦ (
    [],
    some ("http_request handler requires payload.url (string), got: " ◇ env.stringify payload),
  )
  | some url ↦
      prefixed (entry "info" ("Making GET request to " ◇ url))
        (report url (env.fetch url (member "timeoutMs" payload)))
]

-- `body ? … : ""`
abbrev pub body_note : Environment → Option Json → String
body_note env none = ""
body_note env (some null) = ""
body_note env (some (boolean b)) =
    if b then " � Body length: " ◇ env.length_of (boolean b) ◇ " chars" else ""
body_note env (some (number n)) =
    if env.is_zero n then "" else " � Body length: " ◇ env.length_of (number n) ◇ " chars"
body_note env (some (text s)) =
    if str_eq s "" then "" else " � Body length: " ◇ env.length_of (text s) ◇ " chars"
body_note env (some (array vs)) = " � Body length: " ◇ env.length_of (array vs) ◇ " chars"
body_note env (some (object fs)) = " � Body length: " ◇ env.length_of (object fs) ◇ " chars"

pub send_email_handler : Environment → Json → List LogEntry × Option String
send_email_handler env payload = elim (text_field "to" payload) [
  | none ↦ rejected
  | some to ↦ elim (text_field "subject" payload) [
    | none ↦ rejected
    | some subject ↦ (
      entry "info" (
            "Would send email to \""
            ◇ to
            ◇ "\" � Subject: \""
            ◇ subject
            ◇ "\""
            ◇ body_note env (member "body" payload))
          ∷ entry "info" ("Email stub completed for recipient: " ◇ to)
          ∷ [],
      none,
    )
  ]
]
  where
    rejected : List LogEntry × Option String
    rejected = (
      [],
      some (
          "send_email handler requires payload.to and payload.subject, got: "
          ◇ env.stringify payload),
    )

abbrev pub call : Environment → HandlerName → Json → List LogEntry × Option String
unfolding echo_handler http_request_handler send_email_handler
call env echo = echo_handler env
call env http_request = http_request_handler env
call env send_email = send_email_handler env

-- `getHandler(type)`, and the call of what it returns.
pub handle : Environment → Handle
unfolding get_handler
handle env type payload = elim (get_handler type) [
  | registered name ↦ call env name payload
  | inherited_property ↦ ([], env.inherited type payload)
  | missing ↦ (
    [],
    some (
        "No handler registered for job type \"" ◇ type
        ◇ "\". Registered types: [echo, http_request, send_email]"),
  )
]
