-- ===== src/Daemon/Worker/Laws.antt =====
-- What becomes of a task: it is retried, continued, interrupted, or signed again in time.
use opendnssec_workflow_test.Common.{
  ℕ, ◌+◌, ◌*◌, ◌≤◌, ◌<◌, ◌≡◌, refl, ◌≢◌, ◌↔◌, ◌⊎◌, Bool, true, false, ◌&&◌, ◌||◌, min, drop, List,
  [], ◌∷◌, Option, none, some, arith, ◌==◌, if◌then◌else◌,
}
use opendnssec_workflow_test.Scheduler.Task.{
  TaskId, task_none, task_signconf, task_read, task_nsecify, task_sign, task_write, Task,
}
use opendnssec_workflow_test.Daemon.Worker.{
  status_ok, Jobs, check_jobs, Env, Performed, max_backoff, perform_fail, perform_continue,
  fail_or_continue, perform_next, served, is_ok, is_unchanged, perform_write, perform_sign,
  read_status, perform_read, perform_signconf, perform_case, perform_task,
}

-- A task's delay after failures: none, or a minute to an hour.
abbrev pub IsBackoff : ℕ → Type 0
IsBackoff n = (n ≡ 0) ⊎ ((60 ≤ n) × (n ≤ max_backoff))

-- What holds of every outcome, whatever the tools return.
record Sound (out : Performed) : Type 0 where
  scheduled : out.task.what ≢ task_none
  delay : IsBackoff out.task.backoff

fail_or_continue-Sound :
    (e : Env) (t : Task) → t.what ≢ task_none → IsBackoff t.backoff → Sound (fail_or_continue e t)
unfolding fail_or_continue perform_fail perform_continue
fail_or_continue-Sound e t n b = ground arith

perform_next-Sound :
    (e : Env) (t : Task) (what : TaskId) (when : ℕ) (written : Bool)
    → what ≢ task_none
    → Sound (perform_next e t what when written)
unfolding perform_next
perform_next-Sound e t what when written n = ground arith

served_shape : (t : Task) → ((served t).what ≡ t.what) × ((served t).backoff ≡ t.backoff)
unfolding served
served_shape t = ground arith

perform_write-Sound : (e : Env) (t : Task) → IsBackoff t.backoff → Sound (perform_write e t)
unfolding perform_write
perform_write-Sound e t b = ground (
  arith,
  perform_next-Sound e (served (record t { what = task_write })) task_sign
      (e.clock_in + (if e.resign == 0 then 3600 else e.resign)) true,
  fail_or_continue-Sound e (record t { what = task_write }),
)

perform_sign-Sound : (e : Env) (t : Task) → IsBackoff t.backoff → Sound (perform_sign e t)
unfolding perform_sign
perform_sign-Sound e t b =
    let t1 : Task = record t { what = task_sign } in
    ground (
      arith,
      served_shape t1,
      served_shape (served t1),
      perform_write-Sound e (served (served t1)),
      fail_or_continue-Sound e (served t1),
      fail_or_continue-Sound e t1,
    )

perform_read-Sound : (e : Env) (t : Task) → IsBackoff t.backoff → Sound (perform_read e t)
unfolding perform_read
perform_read-Sound e t b =
    let t1 : Task = record t { what = task_read } in
    ground (arith, served_shape t1, perform_sign-Sound e (served t1), fail_or_continue-Sound e t1)

perform_signconf-Sound :
    (e : Env) (t : Task) → t.what ≢ task_none → IsBackoff t.backoff → Sound (perform_signconf e t)
unfolding perform_signconf perform_continue
perform_signconf-Sound e t n b = ground (
  arith,
  perform_read-Sound e (record t { interrupt = task_none; halted = task_none }),
  perform_read-Sound e t,
  fail_or_continue-Sound e t,
)

perform_case-Sound :
    (w : TaskId) (e : Env) (t : Task)
    → w ≢ task_none
    → t.what ≢ task_none
    → IsBackoff t.backoff
    → Sound (perform_case w e t)
unfolding perform_case
perform_case-Sound task_signconf e t w n b = perform_signconf-Sound e t n b
perform_case-Sound task_read e t w n b = perform_read-Sound e t b
perform_case-Sound task_sign e t w n b = perform_sign-Sound e t b
perform_case-Sound task_write e t w n b = perform_write-Sound e t b
perform_case-Sound task_none e t w n b = absurd (w refl)
perform_case-Sound task_nsecify e t w n b =
    perform_next-Sound e t task_signconf e.now false (λ q. cc)

-- Whatever the tools return, a task that is something to do, with a delay of zero or between a minute
-- and an hour, is something to do afterwards, with such a delay.
pub perform_task-Sound :
    (e : Env) (t : Task)
    → t.what ≢ task_none
    → IsBackoff t.backoff
    → ((perform_task e t).task.what ≢ task_none) × IsBackoff (perform_task e t).task.backoff
unfolding perform_task
perform_task-Sound e t n b = let s = perform_case-Sound t.what e t n n b in (s.scheduled, s.delay)

-- The steps in order, each with whether it succeeds.
abbrev pub steps : Env → List (TaskId × Bool)
steps e =
    (task_signconf, is_ok e.signconf || (is_unchanged e.signconf && e.has_signconf))
    ∷ (task_read, is_ok (read_status e))
    ∷ (task_sign, is_ok e.serial && is_ok (check_jobs e.jobs))
    ∷ (task_write, is_ok e.output)
    ∷ []

abbrev pub first_failure : List (TaskId × Bool) → Option TaskId
first_failure [] = none
first_failure ((w, good) ∷ l) = if good then first_failure l else some w

-- The delay after one more failure.
abbrev pub next_backoff : ℕ → ℕ
next_backoff n = if n == 0 then 60 else min (n * 2) max_backoff

-- What a task that nothing has interrupted becomes.
abbrev pub plain_next : Env → Task → Option TaskId → Task
plain_next e t none = record t {
  what = task_sign;
  when = e.clock_in + (if e.resign == 0 then 3600 else e.resign);
  backoff = 0;
  halted_when = 0;
}
plain_next e t (some step) = record t {
  what = step;
  when = e.now + next_backoff t.backoff;
  backoff = next_backoff t.backoff;
}

-- No interrupt is pending.
abbrev pub IsPlain : Task → Type 0
IsPlain t = (t.interrupt ≡ task_none) × (t.halted ≡ task_none)

fail_plain :
    (e : Env) (t : Task) (w : TaskId)
    → IsPlain t
    → (fail_or_continue e (record t { what = w })).task ≡ plain_next e t (some w)
unfolding fail_or_continue perform_fail
fail_plain e t w p = ground arith

served_plain : (t : Task) → IsPlain t → served t ≡ t
unfolding served
served_plain t p = ground arith

write_plain :
    (e : Env) (t : Task)
    → IsPlain t
    → (perform_write e t).task ≡ plain_next e t (first_failure (drop 3 (steps e)))
unfolding perform_write perform_next is_ok
write_plain e t p =
    ground (arith, served_plain (record t { what = task_write }) p, fail_plain e t task_write p)

sign_plain :
    (e : Env) (t : Task)
    → IsPlain t
    → (perform_sign e t).task ≡ plain_next e t (first_failure (drop 2 (steps e)))
unfolding perform_sign
sign_plain e t p = ground (
  arith,
  served_plain (record t { what = task_sign }) p,
  fail_plain e t task_sign p,
  write_plain e (record t { what = task_sign }) p,
)

read_plain :
    (e : Env) (t : Task)
    → IsPlain t
    → (perform_read e t).task ≡ plain_next e t (first_failure (drop 1 (steps e)))
unfolding perform_read
read_plain e t p = ground (
  arith,
  served_plain (record t { what = task_read }) p,
  fail_plain e t task_read p,
  sign_plain e (record t { what = task_read }) p,
)

signconf_plain :
    (e : Env) (t : Task)
    → IsPlain t
    → t.what ≡ task_signconf
    → (perform_signconf e t).task ≡ plain_next e t (first_failure (steps e))
unfolding perform_signconf is_ok is_unchanged
signconf_plain e t p w = ground (arith, fail_plain e t task_signconf p, read_plain e t p)

-- The place of a step in the order.
abbrev pub start : TaskId → ℕ
start task_signconf = 0
start task_read = 1
start task_sign = 2
start task_write = 3
start _ = 4

case_plain :
    (w : TaskId) (e : Env) (t : Task)
    → t.what ≡ w
    → start w < 4
    → IsPlain t
    → (perform_case w e t).task ≡ plain_next e t (first_failure (drop (start w) (steps e)))
unfolding perform_case
case_plain task_signconf e t q h p = signconf_plain e t p q
case_plain task_read e t q h p = read_plain e t p
case_plain task_sign e t q h p = sign_plain e t p
case_plain task_write e t q h p = write_plain e t p
case_plain task_none e t q h p = absurd (omega arith)
case_plain task_nsecify e t q h p = absurd (omega arith)

-- With no interrupt pending, `worker_perform_task` runs the steps configure, read, sign and write from
-- the task's own on. If all succeed the zone is to be signed again after its resign interval (an
-- hour if it has none); otherwise the first step that fails is to be done again after a delay that
-- starts at a minute, doubles, and stops at an hour.
pub perform_task-plain :
    (e : Env) (t : Task)
    → start t.what < 4
    → IsPlain t
    → (perform_task e t).task ≡ plain_next e t (first_failure (drop (start t.what) (steps e)))
unfolding perform_task
perform_task-plain e t h p = case_plain t.what e t refl h p

-- When the steps have succeeded and an interrupt is pending that is not the next step anyway, it is
-- served next, at once; the step that it displaces is kept with its time, and `perform_continue`
-- brings both back.
perform_next-interrupt :
    (e : Env) (t : Task) (what : TaskId) (when : ℕ) (written : Bool)
    → t.interrupt ≢ task_none
    → t.interrupt ≢ what
    → let t' = (perform_next e t what when written).task in
      (t'.what ≡ t.interrupt)
      × (t'.when ≡ e.now)
      × ((perform_continue t').task.what ≡ what)
      × ((perform_continue t').task.when ≡ when)
unfolding perform_next perform_continue
perform_next-interrupt e t what when written n m = ground arith

-- `worker_check_jobs` accepts exactly when every queued RRset was signed and no exit is asked for.
pub check_jobs_iff :
    (j : Jobs)
    → (check_jobs j ≡ status_ok)
      ↔ ((j.failed ≡ 0) × (j.completed ≡ j.appointed) × (j.need_to_exit ≡ false))
unfolding check_jobs
check_jobs_iff j = (λ h. ground arith, λ h. ground arith)
