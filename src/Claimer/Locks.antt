-- ===== src/Claimer/Locks.antt =====
-- worker/src/claimer.ts: claims as transactions of several workers whose steps interleave. A worker
-- counts, selects and locks rows, and commits or rolls back; a lock keeps other statements from
-- changing the row, and the other workers' SELECTs skip it. `history` lists what was claimed.
pub mod Races
use mathlib.Core.List.{flatten}
use chronos_job_scheduler.Prelude.{
  ℕ, ◌-◌, Option, none, some, List, [], ◌∷◌, ◌++◌, map, ◌==◌, if◌then◌else◌, find_unique,
  delete_where, find_first,
}
use chronos_job_scheduler.Schema.{Job}
use chronos_job_scheduler.Claimer.{in_flight, select_for_claim, mark_claimed}

-- An open transaction: the worker that runs it, and the rows that it holds.
pub record Transaction : Type 0 where
  pub worker : ℕ
  pub ids : List ℕ

pub record System : Type 0 where
  pub jobs : List Job
  pub open_transactions : List Transaction
  pub history : List ℕ

-- `available` is what the worker's count left room for, at whatever time it counted.
pub data Step : Type 0 where
  select_rows : ℕ → ℕ → ℕ → ℕ → Step
  commit : ℕ → ℕ → Step
  rollback : ℕ → Step

abbrev pub locked_ids : List Transaction → List ℕ
locked_ids [] = []
locked_ids (t ∷ ts) = t.ids ++ locked_ids ts

abbrev pub close_transaction : ℕ → List Transaction → List Transaction
close_transaction w [] = []
close_transaction w (t ∷ ts) = if t.worker == w then ts else t ∷ close_transaction w ts

abbrev pub held_by : ℕ → List Transaction → List ℕ
held_by w [] = []
held_by w (t ∷ ts) = if t.worker == w then t.ids else held_by w ts

pub step : System → Step → System
step s (select_rows worker queue_id available now) =
    let ids = select_for_claim (locked_ids s.open_transactions) queue_id available now s.jobs in
    record s { open_transactions = record { worker = worker; ids = ids } ∷ s.open_transactions }
step s (commit worker now) =
    let ids = held_by worker s.open_transactions in
    record {
      jobs = mark_claimed ids now s.jobs;
      open_transactions = close_transaction worker s.open_transactions;
      history = ids ++ s.history;
    }
step s (rollback worker) = record s {
  open_transactions = close_transaction worker s.open_transactions;
}

pub run : System → List Step → System
run s [] = s
run s (a ∷ steps) = run (step s a) steps
