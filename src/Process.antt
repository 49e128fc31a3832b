-- ===== src/Process.antt =====
-- kernel/process: the states of a job, its control block, and the table that owns every control
-- block. The queues of the kernel and of the schedulers hold job ids, which stand for references
-- to the shared objects: a change to a job goes through the table and is seen by every holder.
pub mod Table
use dev_q.Prelude.{
  ℕ, suc, String, Bool, true, false, List, [], ◌∷◌, Option, none, some, map, ◌==◌, if◌then◌else◌,
}
use dev_q.Numeric.{Float}
use dev_q.Circuit.{Circuit}
use dev_q.Alloc.{Limits, DeviceReason, Mapping, Decision}

pub data JobState : Type 0 where
  ready running waiting finished failed rejected : JobState

-- circuits/execution_result.py; `counts` and `error` as the provider fills them in.
pub record ExecutionResult : Type 0 where
  pub counts : Option (List (String × ℕ))
  pub success : Bool
  pub error : Option String

-- Why a job is rejected, in place of the text.
pub data Reason (F : Type 0) : Type 0 where
  unrunnable : String → Reason F
  no_allowed_device : (exec_on no_exec_on : Option (List ℕ)) → Reason F
  on_every_device : List (ℕ × DeviceReason F) → Reason F
  on_device : DeviceReason F → Reason F

-- What a submission asks for.
pub record Request (F : Type 0) : Type 0 where
  pub circuit : Circuit F
  pub limits : Limits F
  pub exec_on : Option (List ℕ)
  pub no_exec_on : Option (List ℕ)
  pub shots : Option ℕ

pub record Qcb (F : Type 0) : Type 0 where
  pub job_id : ℕ
  pub circuit : Circuit F
  pub v2p_map : Mapping
  pub state : JobState
  pub limits : Limits F
  pub shots : Option ℕ
  pub exec_on : Option (List ℕ)
  pub no_exec_on : Option (List ℕ)
  pub device_index : Option ℕ
  pub alloc_decision : Option (Decision F)
  pub circuit_hash : Option String
  pub circuit_label : Option String
  pub reject_reason : Option (Reason F)
  pub future : Option ℕ
  pub result : Option ExecutionResult
  pub submitted_seq : Option ℕ
  pub dispatched_seq : Option ℕ
  pub resolved_seq : Option ℕ
  pub submitted_at : Option F
  pub dispatched_at : Option F
  pub resolved_at : Option F

abbrev pub Jobs : Type 0 → Type 0
Jobs F = List (ℕ × Qcb F)

pub record ProcessTable (F : Type 0) : Type 0 where
  pub jobs : Jobs F
  pub next_pid : ℕ

abbrev pub is_rejected : JobState → Bool
is_rejected rejected = true
is_rejected _ = false

module _ {F : Type 0} where
  -- QCB.__init__
  unfoldable pub new_qcb : ℕ → Request F → Qcb F
  new_qcb job_id r = record {
    job_id = job_id;
    circuit = r.circuit;
    v2p_map = [];
    state = ready;
    limits = r.limits;
    shots = r.shots;
    exec_on = r.exec_on;
    no_exec_on = r.no_exec_on;
    device_index = none;
    alloc_decision = none;
    circuit_hash = none;
    circuit_label = none;
    reject_reason = none;
    future = none;
    result = none;
    submitted_seq = none;
    dispatched_seq = none;
    resolved_seq = none;
    submitted_at = none;
    dispatched_at = none;
    resolved_at = none;
  }

  -- `jobs.get(job_id)`
  unfoldable pub get_job : Jobs F → ℕ → Option (Qcb F)
  get_job [] id = none
  get_job ((k, j) ∷ rest) id = if k == id then some j else get_job rest id

  -- Assignments to the attributes of the job `id`.
  unfoldable pub update_job : ℕ → (Qcb F → Qcb F) → Jobs F → Jobs F
  update_job id f [] = []
  update_job id f ((k, j) ∷ rest) =
      let others = update_job id f rest in if k == id then (k, f j) ∷ rest else (k, j) ∷ others

  -- `jobs[pid] = job`
  unfoldable pub put_job : ℕ → Qcb F → Jobs F → Jobs F
  put_job id j [] = (id, j) ∷ []
  put_job id j ((k, i) ∷ rest) =
      let others = put_job id j rest in if k == id then (k, j) ∷ rest else (k, i) ∷ others

  unfoldable pub new_table : ProcessTable F
  new_table = record { jobs = []; next_pid = 1 }

  unfoldable pub create_job : ProcessTable F → Request F → ProcessTable F × ℕ
  unfolding put_job new_qcb
  create_job t r = (
    record { jobs = put_job t.next_pid (new_qcb t.next_pid r) t.jobs; next_pid = suc t.next_pid },
    t.next_pid,
  )

  unfoldable pub list_jobs : ProcessTable F → List (Qcb F)
  list_jobs t = map (λ e. e.1) t.jobs

module _ {F : Type 0} ⦃fl : Float F⦄ where
  elapsed : Option F → Option F → Option F
  elapsed none _ = none
  elapsed (some from) none = none
  elapsed (some from) (some until) = some (fl.minus until from)

  unfoldable pub queue_latency : Qcb F → Option F
  unfolding elapsed
  queue_latency j = elapsed j.submitted_at j.dispatched_at

  unfoldable pub execution_time : Qcb F → Option F
  unfolding elapsed
  execution_time j = elapsed j.dispatched_at j.resolved_at

  unfoldable pub turnaround_time : Qcb F → Option F
  unfolding elapsed
  turnaround_time j = elapsed j.submitted_at j.resolved_at
