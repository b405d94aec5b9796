-- ===== src/Api/Stage.antt =====
-- The stage of a workflow: Stage, StatusPhase, StageState and Interruptible of
-- pkg/apis/tf/v1beta1/terraform_types.go.
use terraform_operator.Prelude.{
  ℕ, String, Bool, true, false, ◌==◌, if◌then◌else◌, nat_beq, ltb, not, ◌≡◌, ◌↔◌, arith, eq_iff,
}
use terraform_operator.Api.Task.{TaskName}

-- `type StatusPhase string`: the constants, and the empty text of a new resource. Only the
-- controller writes it.
pub data StatusPhase : Type 0 where
  unset initializing completed running init_delete deleting deleted : StatusPhase

abbrev pub phase_eq : StatusPhase → StatusPhase → Bool
phase_eq unset unset = true
phase_eq initializing initializing = true
phase_eq completed completed = true
phase_eq running running = true
phase_eq init_delete init_delete = true
phase_eq deleting deleting = true
phase_eq deleted deleted = true
phase_eq _ _ = false

-- `type StageState string`. A pod's phase is cast into it, so any text may stand there.
abbrev pub StageState : Type 0
StageState = String

abbrev pub state_initializing : StageState
state_initializing = "initializing"

abbrev pub state_complete : StageState
state_complete = "complete"

abbrev pub state_failed : StageState
state_failed = "failed"

abbrev pub state_in_progress : StageState
state_in_progress = "in-progress"

abbrev pub state_unknown : StageState
state_unknown = "unknown"

-- `type Interruptible bool`
abbrev pub Interruptible : Type 0
Interruptible = Bool

abbrev pub can_not_be_interrupt : Interruptible
can_not_be_interrupt = false

abbrev pub can_be_interrupt : Interruptible
can_be_interrupt = true

-- `metav1.Time`: the zero time, or seconds since the epoch.
pub data Time : Type 0 where
  zero_time : Time
  unix : ℕ → Time

abbrev pub is_zero : Time → Bool
is_zero zero_time = true
is_zero (unix t) = false

abbrev pub before : Time → Time → Bool
before zero_time zero_time = false
before zero_time (unix u) = true
before (unix t) zero_time = false
before (unix t) (unix u) = ltb t u

pub record Stage : Type 0 where
  pub generation : ℕ
  pub state : StageState
  pub task_type : TaskName
  pub interruptible : Interruptible
  pub reason : String
  pub start_time : Time
  pub stop_time : Time
  pub message : String
  pub pod_name : String
  pub pod_uid : String

abbrev pub bool_eq : Bool → Bool → Bool
bool_eq true true = true
bool_eq false false = true
bool_eq _ _ = false

-- `func (s Stage) IsEqual(desired Stage) string`: the first field that differs.
unfoldable pub is_equal : Stage → Stage → String
is_equal s desired =
    if not (nat_beq s.generation desired.generation)
    then "generation"
    else if not (s.task_type == desired.task_type)
    then "taskType"
    else if not (bool_eq s.interruptible desired.interruptible)
    then "interruptible"
    else if not (s.reason == desired.reason)
    then "reason"
    else if not (s.message == desired.message)
    then "message"
    else if not (s.pod_name == desired.pod_name)
    then "podName"
    else ""

-- What `IsEqual` looks at.
pub record Agrees (s desired : Stage) : Type 0 where
  pub generation : s.generation ≡ desired.generation
  pub task_type : s.task_type ≡ desired.task_type
  pub interruptible : s.interruptible ≡ desired.interruptible
  pub reason : s.reason ≡ desired.reason
  pub message : s.message ≡ desired.message
  pub pod_name : s.pod_name ≡ desired.pod_name

module _ (s d : Stage) where
  -- `IsEqual` finds no difference exactly where the six fields that it compares agree: the state,
  -- the times and the pod's UID are free.
  pub is_equal_iff : (is_equal s d ≡ "") ↔ Agrees s d
  unfolding is_equal
  is_equal_iff = ground (
    arith,
    eq_iff s.task_type d.task_type,
    eq_iff s.reason d.reason,
    eq_iff s.message d.message,
    eq_iff s.pod_name d.pod_name,
    eq_iff "generation" "",
    eq_iff "taskType" "",
    eq_iff "interruptible" "",
    eq_iff "reason" "",
    eq_iff "message" "",
    eq_iff "podName" "",
  )
