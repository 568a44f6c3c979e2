-- ===== src/WebPages/JobList.antt =====
-- web/app/jobs/page.tsx. A request for a listing is on its way until its answer arrives; several may be, and
-- React keeps no order between them. The queues offered by the selections are left out.
pub mod InOrder
pub mod Shown
pub mod Buttons
mod Tests
use mathlib.Core.Option
use chronos_job_scheduler.Prelude.{
  ℕ, suc, zero, ◌+◌, ◌-◌, ◌*◌, ◌/◌, min, max, String, str_eq, Bool, true, false, not, ◌&&◌, ◌||◌,
  Option, none, some, List, [], ◌∷◌, ◌++◌, ◌==◌, leb, if◌then◌else◌,
}
use chronos_job_scheduler.Schema.{Job, JobStatus, JobLog, JobExecution}
use chronos_job_scheduler.Schema.JsonValue.{Json}
use chronos_job_scheduler.Listing.{Listing}
use chronos_job_scheduler.Pagination.Digits.{digits}
use chronos_job_scheduler.Jobs.Body.{CreateJob}
use chronos_job_scheduler.Jobs.Reads.{JobQuery, JobSummary, ExecutionDetail}

-- Where the text of the error comes from.
pub data PageError : Type 0 where
  load_failed retry_failed cancel_failed submit_failed : PageError

pub record JobsPage : Type 0 where
  pub jobs : List JobSummary
  pub total : ℕ
  pub loading : Bool
  pub error : Option PageError
  pub page : ℕ
  pub filter_status : String
  pub filter_queue : Option ℕ
  pub selected : Option Job
  pub executions : List ExecutionDetail
  pub logs : List (JobLog × Option JobExecution)
  pub pending : List JobQuery

-- `LIMIT`
abbrev pub page_size : ℕ
page_size = 20

-- `URLSearchParams`; no status is the empty text.
abbrev pub query_of : JobsPage → JobQuery
query_of p = record {
  queue_id = p.filter_queue;
  status = if str_eq p.filter_status "" then none else some p.filter_status;
  type = none;
  batch_id = none;
  page = some (digits p.page);
  limit = some (digits page_size);
}

-- `loadJobs`, up to its `await`
abbrev pub load_jobs : JobsPage → JobsPage
load_jobs p = record p { loading = true; error = none; pending = p.pending ++ query_of p ∷ [] }

-- The same in a function that was made when the page was rendered as the first page: it asks for what was
-- set then.
abbrev pub load_jobs_of : JobsPage → JobsPage → JobsPage
load_jobs_of rendered p = record p {
  loading = true;
  error = none;
  pending = p.pending ++ query_of rendered ∷ [];
}

-- The rest of `loadJobs`, once its answer is there.
abbrev pub loaded : Option (Listing JobSummary) → JobsPage → JobsPage
loaded none p = record p { error = some load_failed; loading = false }
loaded (some l) p = record p { jobs = l.rows; total = l.meta.total; loading = false }

abbrev pub same_queue : Option ℕ → Option ℕ → Bool
same_queue none none = true
same_queue (some a) (some b) = a == b
same_queue _ _ = false

-- What `loadJobs` depends on is as it was, so that the effect does not run.
abbrev pub same_query : JobsPage → JobsPage → Bool
same_query p q =
    p.page == q.page
    && (str_eq p.filter_status q.filter_status && same_queue p.filter_queue q.filter_queue)

abbrev pub update : (JobsPage → JobsPage) → JobsPage → JobsPage
update f p = if same_query p (f p) then f p else load_jobs (f p)

abbrev pub choose_status : String → JobsPage → JobsPage
choose_status status p = record p { filter_status = status; page = 1 }

abbrev pub choose_queue : Option ℕ → JobsPage → JobsPage
choose_queue queue p = record p { filter_queue = queue; page = 1 }

abbrev pub clear_filters : JobsPage → JobsPage
clear_filters p = record p { filter_status = ""; filter_queue = none; page = 1 }

-- `Math.ceil(total / LIMIT)`
abbrev pub total_pages : JobsPage → ℕ
total_pages p = (p.total + 19) / page_size

-- The buttons, which are disabled on the first and on the last page.
abbrev pub go_prev : JobsPage → JobsPage
go_prev p = if p.page == 1 then p else record p { page = max 1 (p.page - 1) }

abbrev pub go_next : JobsPage → JobsPage
go_next p =
    if leb (total_pages p) p.page then p else record p { page = min (total_pages p) (p.page + 1) }

-- `openJobDetail`, up to its `await`
abbrev pub open_job : Job → JobsPage → JobsPage
open_job j p = record p { selected = some j; executions = []; logs = [] }

-- Both answers are there, or one call has failed.
abbrev pub detail_loaded :
    Option (List ExecutionDetail × List (JobLog × Option JobExecution)) → JobsPage → JobsPage
detail_loaded none p = p
detail_loaded (some (executions, logs)) p = record p { executions = executions; logs = logs }

-- The buttons that a row and the detail offer.
abbrev pub shows_retry : JobStatus → Bool
shows_retry JobStatus.failed = true
shows_retry JobStatus.dead_letter = true
shows_retry _ = false

abbrev pub shows_cancel : JobStatus → Bool
shows_cancel JobStatus.queued = true
shows_cancel JobStatus.scheduled = true
shows_cancel _ = false

-- `if (selectedJob?.id === jobId)`, with what was selected when the page was rendered with the button.
abbrev pub close_if : JobsPage → ℕ → JobsPage → JobsPage
close_if rendered id p = elim rendered.selected [
  | none ↦ p
  | some j ↦ if j.id == id then record p { selected = none } else p
]

-- `retryJob` and `cancelJob`, once the server has answered: the listing is asked for again, with the page
-- number and the filters of the rendering that the button was on. When that has come, `closes_changed`
-- closes the detail of the job.
abbrev pub changed : PageError → JobsPage → Bool → JobsPage → JobsPage
changed e rendered done p = if done then load_jobs_of rendered p else record p { error = some e }

-- The form.
pub record SubmitForm : Type 0 where
  pub queue : ℕ
  pub type : String
  pub payload : String
  pub run_at : Option ℕ
  pub cron : String

abbrev pub blank_form : ℕ → SubmitForm
blank_form queue = record { queue = queue; type = "echo"; payload = "{}"; run_at = none; cron = "" }

-- The body that `submitJob` sends; `parse` is `JSON.parse`, which may throw.
abbrev pub body_of : (String → Option Json) → SubmitForm → Option CreateJob
body_of parse form =
    Option.map
      (λ (payload : Json). record {
        type = form.type;
        payload = some payload;
        run_at = form.run_at;
        cron_expression = if str_eq form.cron "" then none else some form.cron;
        retry_policy_id = none;
        idempotency_key = none;
        priority = none;
      })
      (parse form.payload)

-- The rest of `submitJob`: if the server took the job, the form is emptied, and the listing is asked for with
-- what was set when the form was sent.
abbrev pub submitted : JobsPage → Bool → SubmitForm → JobsPage → SubmitForm × JobsPage
submitted rendered true form p = (blank_form form.queue, load_jobs_of rendered p)
submitted rendered false form p = (form, record p { error = some submit_failed })

-- What happens to the page. An answer to a button or to the form comes with the page as it was when that was
-- used. `arrives` says which of the requests on their way is answered.
pub data Event : Type 0 where
  chooses_status : String → Event
  chooses_queue : Option ℕ → Event
  clears goes_prev goes_next closes hears_transition : Event
  opens : Job → Event
  hears_detail : Option (List ExecutionDetail × List (JobLog × Option JobExecution)) → Event
  retries cancels : JobsPage → Bool → Event
  closes_changed : JobsPage → ℕ → Event
  submits : JobsPage → Bool → SubmitForm → Event
  arrives : ℕ → Event

abbrev pub nth : ℕ → List JobQuery → Option JobQuery
nth k [] = none
nth zero (q ∷ qs) = some q
nth (suc k) (q ∷ qs) = nth k qs

abbrev pub without : ℕ → List JobQuery → List JobQuery
without k [] = []
without zero (q ∷ qs) = qs
without (suc k) (q ∷ qs) = q ∷ without k qs

-- The server answers a query, or the call throws.
module _ (serve : JobQuery → Option (Listing JobSummary)) where
  abbrev pub arrive : ℕ → JobsPage → JobsPage
  arrive k p = elim (nth k p.pending) [
    | none ↦ p
    | some q ↦ loaded (serve q) (record p { pending = without k p.pending })
  ]

  pub step : Event → JobsPage → JobsPage
  step (chooses_status status) p = update (choose_status status) p
  step (chooses_queue queue) p = update (choose_queue queue) p
  step clears p = update clear_filters p
  step goes_prev p = update go_prev p
  step goes_next p = update go_next p
  step closes p = record p { selected = none }
  step hears_transition p = load_jobs p
  step (opens j) p = open_job j p
  step (hears_detail answers) p = detail_loaded answers p
  step (retries rendered done) p = changed retry_failed rendered done p
  step (cancels rendered done) p = changed cancel_failed rendered done p
  step (closes_changed rendered id) p = close_if rendered id p
  step (submits rendered done form) p = (submitted rendered done form p).1
  step (arrives k) p = arrive k p

  pub run : List Event → JobsPage → JobsPage
  unfolding step
  run [] p = p
  run (e ∷ es) p = run es (step e p)

-- The page as it first renders, after its effects have run.
abbrev pub start : JobsPage
start = load_jobs (record {
  jobs = [];
  total = 0;
  loading = false;
  error = none;
  page = 1;
  filter_status = "";
  filter_queue = none;
  selected = none;
  executions = [];
  logs = [];
  pending = [];
})
