-- ===== src/Worker/Run/Checked.antt =====
-- What `Enqueue` of pkg/worker/worker.go hands to the queue.
use mathlib.Core.Path.{subst}
use entropy.Base.{
  ℕ, String, some, List, [], ◌∷◌, ◌≡◌, ◌≢◌, refl, ap, sym, ◌∙◌, arith, eq_iff, if◌then◌else◌,
  Option-cases, inl, inr, eqb,
}
use entropy.Base.Dict.{lookup}
use entropy.Base.Text.{trim_space}
use entropy.Io.Invert.{ok-inj}
use entropy.Io.{Result, ok, err}
use entropy.Worker.{Job, JobFn, sanitise, status_pending}
use entropy.Worker.Run.{Worker, known_kind, add_job, checked_jobs, enqueue_checked, enqueue}

-- A job, ready to be put into the queue, that was made of `old` at the time `now`.
pub record Ready {W V : Type 0} (w : Worker W V) (now : ℕ) (old job : Job) : Type 0 where
  pub id : (job.id ≡ trim_space old.id) × (job.id ≢ "")
  pub kind : (job.kind ≢ "") × (fn : JobFn V) × (lookup job.kind w.handlers ≡ some fn)
  pub status : job.status ≡ status_pending
  pub attempts : job.attempts_done ≡ 0
  pub payload : job.payload ≡ old.payload
  pub run_at : (old.run_at ≢ 0 → job.run_at ≡ old.run_at) × (old.run_at ≡ 0 → job.run_at ≡ now)

abbrev pub AllReady : {W V : Type 0} → Worker W V → ℕ → List Job → List Job → Type 0
AllReady w now [] [] = Unit
AllReady w now (old ∷ olds) (job ∷ jobs) = Ready w now old job × AllReady w now olds jobs
AllReady w now [] (job ∷ jobs) = ⊥
AllReady w now (old ∷ olds) [] = ⊥

add_job-eq-ok :
    (r : Result Job) (rest : Result (List Job)) {jobs : List Job}
    → add_job r rest ≡ ok jobs
    → (job : Job) × (more : List Job) × (r ≡ ok job) × (rest ≡ ok more) × (job ∷ more ≡ jobs)
add_job-eq-ok (ok job) (ok more) e = (job, more, refl, refl, ground arith)
add_job-eq-ok (ok job) (err x) e = ground arith
add_job-eq-ok (err x) rest e = ground arith

known_kind-eq-ok :
    {W V : Type 0} (w : Worker W V) (r : Result Job) (job : Job)
    → known_kind w r ≡ ok job
    → (r ≡ ok job) × (fn : JobFn V) × (lookup job.kind w.handlers ≡ some fn)
known_kind-eq-ok w (err x) job e = ground arith
known_kind-eq-ok w (ok j) job e = elim (Option-cases (lookup j.kind w.handlers)) [
  | inl none_there ↦ ground arith
  | inr (fn, found) ↦
      let same : j ≡ job = ok-inj (rw found at e) in
      (ap (λ x. ok x) same, fn, ap (λ x. lookup x.kind w.handlers) (sym same) ∙ found)
]

-- what `Sanitise` makes of a job that is valid
sanitised :
    (to_lower : String → String) (now : ℕ) (old job : Job)
    → sanitise to_lower now old ≡ ok job
    → (job.id ≡ trim_space old.id)
      × (job.id ≢ "")
      × (job.kind ≢ "")
      × (job.status ≡ status_pending)
      × (job.attempts_done ≡ 0)
      × (job.payload ≡ old.payload)
      × (job.run_at ≡ (if eqb old.run_at 0 then now else old.run_at))
unfolding sanitise
sanitised to_lower now old job e =
    ground (arith, eq_iff (trim_space old.id) "", eq_iff (trim_space (to_lower old.kind)) "")

time_to_run :
    (old_at now at : ℕ)
    → at ≡ (if eqb old_at 0 then now else old_at)
    → (old_at ≢ 0 → at ≡ old_at) × (old_at ≡ 0 → at ≡ now)
time_to_run old_at now at e = (λ h. ground arith, λ h. ground arith)

module _ {W V : Type 0} (to_lower : String → String) (now : ℕ) (w : Worker W V) where
  checked_job-Ready :
      (old job : Job) → known_kind w (sanitise to_lower now old) ≡ ok job → Ready w now old job
  checked_job-Ready old job e =
      let (valid, fn, found) = known_kind-eq-ok w _ job e in
      let (id, named, kind, status, attempts, payload, run_at) =
        sanitised to_lower now old job valid in
      record {
        id = (id, named);
        kind = (kind, fn, found);
        status = status;
        attempts = attempts;
        payload = payload;
        run_at = time_to_run old.run_at now job.run_at run_at;
      }

  checked_jobs-AllReady :
      (olds jobs : List Job) → checked_jobs to_lower now w olds ≡ ok jobs → AllReady w now olds jobs
  unfolding checked_jobs
  checked_jobs-AllReady [] [] e = tt
  checked_jobs-AllReady [] (job ∷ jobs) e = ground arith
  checked_jobs-AllReady (old ∷ olds) jobs e =
      let (job, more, first, rest, both) = add_job-eq-ok _ _ e in
      subst (AllReady w now (old ∷ olds)) both
        (checked_job-Ready old job first, checked_jobs-AllReady olds more rest)

  -- what the worker hands to its queue
  abbrev pub Handed : List Job → W → Result (List Job) → Type 0
  Handed olds q (err e) = enqueue to_lower now w olds q ≡ (err e, q)
  Handed olds q (ok jobs) =
      AllReady w now olds jobs × (enqueue to_lower now w olds q ≡ w.queue.enqueue jobs q)

  handed :
      (olds : List Job) (q : W) (r : Result (List Job))
      → checked_jobs to_lower now w olds ≡ r
      → Handed olds q r
  unfolding enqueue
  handed olds q (err e) h = ap (λ r. enqueue_checked w r q) h
  handed olds q (ok jobs) h = (checked_jobs-AllReady olds jobs h, ap (λ r. enqueue_checked w r q) h)

  -- `Enqueue` either returns the error of a check and leaves the queue as it is, or hands all the jobs
  -- to the queue in order, each with its id, trimmed and not empty, a kind that has a function, its
  -- payload and its time to run, which is now if it had none, pending and without attempts.
  pub enqueue-Handed : (olds : List Job) (q : W) → Handed olds q (checked_jobs to_lower now w olds)
  enqueue-Handed olds q = handed olds q (checked_jobs to_lower now w olds) refl
