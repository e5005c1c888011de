-- ===== src/Jobs/Recover.antt =====
-- The rows of the table of jobs that FinishJob and RecoverStale change, in internal/jobs/jobs.go.
use mathlib.Core.Path.{subst}
use mathlib.Core.Option.{some-injective}
use nixbox.Prelude.{
  All, Bool, Bool-cases, List, Option, [], arith, false, imp-All, inl, inr, map-All, none, refl,
  some, sym, true, ℕ, ◌==◌, ◌||◌, ◌∷◌, ◌≡◌,
}
use nixbox.Jobs.{
  Stage, Job, JobStatus, ℤ, running, ok, failed, creating, logging, opening, working, finishing,
  leaving, update_job, finished, finish_job, set_job_log_path, running_jobs, fail_each,
  recover_stale, is_running, negsuc,
}
use nixbox.Jobs.Records.{fits}

-- The job that the thread past the flag is at.
abbrev pub current : List Stage → Option ℕ
current [] = none
current (creating kind workload_id ∷ ts) = none
current (logging id ∷ ts) = some id
current (opening id ∷ ts) = some id
current (working id ∷ ts) = some id
current (finishing id status code generation ∷ ts) = some id
current (leaving ∷ ts) = none

abbrev pub Only : Option ℕ → Job → Type 0
Only now j = is_running j ≡ true → now ≡ some j.id

pub from_none :
    (now : Option ℕ) (js : List Job) → All (λ j. Only none j) js → All (λ j. Only now j) js
from_none now js h =
    imp-All (λ j. Only none j) (λ j. Only now j) js (λ j k r. absurd (let e = k r in cc)) h

fits-running :
    (status : JobStatus) (code : ℤ) (generation : Option ℕ) (j : Job)
    → fits status (some code) ≡ true
    → is_running (finished status code generation j) ≡ true
    → ⊥
fits-running running code generation j fit r = cc
fits-running ok code generation j fit r = cc
fits-running failed code generation j fit r = cc

same_id : (id : ℕ) (j : Job) → some id ≡ some j.id → (j.id == id) ≡ true
same_id id j e = let same : id ≡ j.id = some-injective _ _ e in ground arith

pub finish_job-Only :
    (id : ℕ) (status : JobStatus) (code : ℤ) (generation : Option ℕ) (js : List Job)
    → fits status (some code) ≡ true
    → All (λ j. Only (some id) j) js
    → All (λ j. Only none j) (finish_job id status code generation js)
unfolding finish_job
finish_job-Only id status code generation js fit h =
    map-All (λ j. Only (some id) j) (λ j. Only none j)
      (update_job (finished status code generation) id) js
      (λ j k. elim (Bool-cases (j.id == id)) [
        | inl t ↦ rw t (λ r. absurd (fits-running status code generation j fit r))
        | inr f ↦ rw f (λ r. absurd (let e = same_id id j (k r) in cc))
      ])
      h

pub set_job_log_path-Only :
    (now : Option ℕ) (id : ℕ) (js : List Job)
    → All (λ j. Only now j) js
    → All (λ j. Only now j) (set_job_log_path id js)
unfolding set_job_log_path
set_job_log_path-Only now id js h =
    map-All (λ j. Only now j) (λ j. Only now j)
      (update_job (λ j. record j { log_path = some id }) id) js
      (λ j k. elim (Bool-cases (j.id == id)) [ inl t ↦ rw t k | inr f ↦ rw f k ]) h

abbrev has_id : ℕ → List Job → Bool
has_id id [] = false
has_id id (j ∷ js) = j.id == id || has_id id js

fail_each-Only :
    (stale js : List Job)
    → All (λ j. is_running j ≡ true → has_id j.id stale ≡ true) js
    → All (λ j. Only none j) (fail_each stale js)
unfolding fail_each finish_job
fail_each-Only [] js h =
    imp-All (λ j. is_running j ≡ true → false ≡ true) (λ j. Only none j) js
      (λ j k r. absurd (let e = k r in cc)) h
fail_each-Only (s ∷ stale) js h = fail_each-Only stale (finish_job s.id failed (negsuc 0) none js) (
    map-All (λ j. is_running j ≡ true → has_id j.id (s ∷ stale) ≡ true)
      (λ j. is_running j ≡ true → has_id j.id stale ≡ true)
      (update_job (finished failed (negsuc 0) none) s.id) js
      (λ j k. elim (Bool-cases (j.id == s.id)) [
        | inl t ↦ rw t (λ r. absurd (cc))
        | inr f ↦ rw f (λ r. let e = k r in ground arith)
      ])
      h)

running_jobs-has_id :
    (js : List Job) → All (λ j. is_running j ≡ true → has_id j.id (running_jobs js) ≡ true) js
unfolding running_jobs
running_jobs-has_id [] = tt
running_jobs-has_id (j ∷ js) = elim (Bool-cases (is_running j)) [
  | inl t ↦
      let kept : running_jobs (j ∷ js) ≡ j ∷ running_jobs js = rw t refl in
      subst (λ l. All (λ k. is_running k ≡ true → has_id k.id l ≡ true) (j ∷ js)) (sym kept)
        (
          λ _. ground arith,
          imp-All (λ k. is_running k ≡ true → has_id k.id (running_jobs js) ≡ true)
              (λ k. is_running k ≡ true → has_id k.id (j ∷ running_jobs js) ≡ true) js
              (λ k h r. let e = h r in ground arith) (running_jobs-has_id js),
        )
  | inr f ↦
      let left : running_jobs (j ∷ js) ≡ running_jobs js = rw f refl in
      subst (λ l. All (λ k. is_running k ≡ true → has_id k.id l ≡ true) (j ∷ js)) (sym left)
        (λ r. absurd (cc), running_jobs-has_id js)
]

pub recover_stale-Only : (js : List Job) → All (λ j. Only none j) (recover_stale js)
unfolding recover_stale
recover_stale-Only js = fail_each-Only (running_jobs js) js (running_jobs-has_id js)
