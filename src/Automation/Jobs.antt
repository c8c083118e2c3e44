-- ===== src/Automation/Jobs.antt =====
-- Jobs, their states and priorities (automation/app/models.py), and the policy of the queue with the bonus
-- for waiting (automation/app/policy_models.py, automation/app/redis_store.py). Times are whole seconds.
use polygate.Prelude.{ℕ, ◌*◌, ◌/◌, min, Bool, true, false, ◌&&◌, Option, String, leb}

-- `QueuePolicy`
pub record QueuePolicy : Type 0 where
  pub waiting_bonus_interval_seconds : ℕ
  pub waiting_bonus_points : ℕ
  pub waiting_bonus_cap : ℕ
  pub starvation_streak_threshold : ℕ
  pub starvation_wait_seconds : ℕ

-- `DEFAULT_QUEUE_POLICY`
abbrev pub default_queue_policy : QueuePolicy
default_queue_policy = record {
  waiting_bonus_interval_seconds = 5;
  waiting_bonus_points = 1;
  waiting_bonus_cap = 30;
  starvation_streak_threshold = 3;
  starvation_wait_seconds = 20;
}

-- The limits of the fields of `QueuePolicy`.
unfoldable pub check_queue_policy : QueuePolicy → Bool
check_queue_policy q =
    leb 1 q.waiting_bonus_interval_seconds
    && leb q.waiting_bonus_interval_seconds 3600
    && leb q.waiting_bonus_points 100
    && leb q.waiting_bonus_cap 1000
    && leb 1 q.starvation_streak_threshold
    && leb q.starvation_streak_threshold 100
    && leb 1 q.starvation_wait_seconds
    && leb q.starvation_wait_seconds 86400

-- `waiting_bonus`; a wait that would be negative is 0 here, as `max(0.0, …)` makes it.
unfoldable pub waiting_bonus : ℕ → QueuePolicy → ℕ
waiting_bonus waited p =
    min p.waiting_bonus_cap (p.waiting_bonus_points * (waited / p.waiting_bonus_interval_seconds))

pub data JobState : Type 0 where
  queued running completed failed : JobState

pub data Urgency : Type 0 where
  critical high normal low : Urgency

-- `_CRITICAL_HIGH`
abbrev pub is_urgent : Urgency → Bool
is_urgent critical = true
is_urgent high = true
is_urgent normal = false
is_urgent low = false

-- `JobRecord`, generic in the results of jobs.
pub record JobRecord (Res : Type 0) : Type 0 where
  pub job_id : String
  pub status : JobState
  pub urgency : Urgency
  pub initial_score : ℕ
  pub queue_position : ℕ
  pub created_at : ℕ
  pub started_at : Option ℕ
  pub completed_at : Option ℕ
  pub result : Option Res
  pub error : Option String
  pub policy_version : Option ℕ

-- What `enqueue` reads of a preview.
pub record Preview (Payload : Type 0) : Type 0 where
  pub urgency : Urgency
  pub initial_score : ℕ
  pub gateway_request : Payload
  pub policy_version : Option ℕ

abbrev pub is_queued : JobState → Bool
is_queued queued = true
is_queued running = false
is_queued completed = false
is_queued failed = false

abbrev pub same_state : JobState → JobState → Bool
same_state queued s = is_queued s
same_state running s = elim s [ running ↦ true | _ ↦ false ]
same_state completed s = elim s [ completed ↦ true | _ ↦ false ]
same_state failed s = elim s [ failed ↦ true | _ ↦ false ]
