-- ===== src/WebPages/QueueForms.antt =====
-- web/app/queues/page.tsx: what the page sends to the routes of api/src/routes/queues.ts, from the texts of its fields.

pub mod Toggle
use chronos_job_scheduler.Prelude.{
  ℕ, String, Bool, true, false, not, Option, none, some, List, [], ◌==◌, leb, if◌then◌else◌,
}
use chronos_job_scheduler.Schema.{Queue}
use chronos_job_scheduler.Pagination.{Parsed, not_a_number, negative, integer, parse_int}
use chronos_job_scheduler.Pagination.Digits.{digits}
use chronos_job_scheduler.Queues.{CreateQueue, UpdateQueue}

pub record QueueForm : Type 0 where
  pub name : String
  pub concurrency : List ℕ
  pub priority : List ℕ

pub data QueuesError : Type 0 where
  load_failed update_failed create_failed : QueuesError

pub record QueuesPage : Type 0 where
  pub queues : List Queue
  pub loading : Bool
  pub error : Option QueuesError
  pub show_new : Bool
  pub form : QueueForm
  pub editing : ℕ → Option (List ℕ)

abbrev pub blank_form : QueueForm
blank_form = record { name = ""; concurrency = digits 10; priority = digits 0 }

-- `togglePause`
abbrev pub toggle_pause : Queue → UpdateQueue
toggle_pause q = record {
  priority = none;
  concurrency_limit = none;
  is_paused = some (not q.is_paused);
}

-- `parseInt(editing ?? String(limit))`, `if (isNaN(val) || val < 1) return`
abbrev pub at_least_1 : Parsed → Option ℕ
at_least_1 not_a_number = none
at_least_1 negative = none
at_least_1 (integer n) = if n == 0 then none else some n

abbrev pub edited : QueuesPage → Queue → List ℕ
edited p q = elim (p.editing q.id) [ none ↦ digits q.concurrency_limit | some text ↦ text ]

-- `saveConcurrency`: what it sends, if anything.
abbrev pub with_limit : Option ℕ → Option UpdateQueue
with_limit none = none
with_limit (some n) =
    some (record { priority = none; concurrency_limit = some n; is_paused = none })

pub save_concurrency : QueuesPage → Queue → Option UpdateQueue
save_concurrency p q = with_limit (at_least_1 (parse_int (edited p q)))

-- `parseInt(text) || fallback`; a negative number, which the server refuses, is `none`.
abbrev pub number_or : ℕ → Parsed → Option ℕ
number_or fallback not_a_number = some fallback
number_or fallback negative = none
number_or fallback (integer n) = some (if n == 0 then fallback else n)

abbrev pub with_numbers : String → Option ℕ → Option ℕ → Option CreateQueue
with_numbers name (some concurrency) (some priority) = some (record {
  name = name;
  priority = some priority;
  concurrency_limit = some concurrency;
  default_retry_policy_id = none;
})
with_numbers name _ _ = none

-- `createQueue`
pub new_queue_body : QueueForm → Option CreateQueue
new_queue_body form =
    with_numbers form.name (number_or 10 (parse_int form.concurrency))
      (number_or 0 (parse_int form.priority))

abbrev pub edit : ℕ → List ℕ → QueuesPage → QueuesPage
edit id text p = record p { editing = λ k. if k == id then some text else p.editing k }

abbrev pub stop_editing : ℕ → QueuesPage → QueuesPage
stop_editing id p = record p { editing = λ k. if k == id then none else p.editing k }

-- What an answer of the server does to the page, before the queues are asked for again.
abbrev pub saved : Bool → ℕ → QueuesPage → QueuesPage
saved true id p = stop_editing id p
saved false id p = record p { error = some update_failed }

abbrev pub created : Bool → QueuesPage → QueuesPage
created true p = record p { show_new = false; form = blank_form }
created false p = record p { error = some create_failed }

-- `loadQueues`
abbrev pub queues_loaded : Option (List Queue) → QueuesPage → QueuesPage
queues_loaded none p = record p { error = some load_failed; loading = false }
queues_loaded (some rows) p = record p { error = none; queues = rows; loading = false }
