-- ===== src/Automation/Drafts.antt =====
-- The draft of a policy and its validators (automation/app/policy_models.py), the intents that it scores
-- (automation/app/models.py), and the score (automation/app/policy_manager.py).
use polygate.Prelude.{
  ℕ, ◌+◌, ◌<◌, ◌≡◌, Bool, true, false, ◌&&◌, Text, leb, ltb, ◌==◌, length, arith,
}
use polygate.Prelude.Floats.{Floats}
use polygate.Gateway.Router.{Privacy, Quality, RoutingPolicy}
use polygate.Automation.Jobs.{QueuePolicy, check_queue_policy, Urgency, critical, high, normal, low}

pub data Department : Type 0 where
  engineering support finance marketing : Department

pub data Scenario : Type 0 where
  production_incident customer_escalation finance_summary marketing_batch : Scenario

abbrev pub is_high : Privacy → Bool
is_high Privacy.standard = false
is_high Privacy.high = true

-- `UrgencyScores`
pub record UrgencyScores : Type 0 where
  pub critical_score : ℕ
  pub high_score : ℕ
  pub normal_score : ℕ
  pub low_score : ℕ

-- The limits of the fields, and `_ordered`.
unfoldable pub check_scores : UrgencyScores → Bool
check_scores s =
    leb s.critical_score 1000
    && leb s.high_score 1000
    && leb s.normal_score 1000
    && leb s.low_score 1000
    && ltb s.high_score s.critical_score
    && ltb s.normal_score s.high_score
    && ltb s.low_score s.normal_score

abbrev pub score_of : UrgencyScores → Urgency → ℕ
score_of s critical = s.critical_score
score_of s high = s.high_score
score_of s normal = s.normal_score
score_of s low = s.low_score

-- More urgent: critical, high, normal, low.
abbrev pub urgency_rank : Urgency → ℕ
urgency_rank critical = 3
urgency_rank high = 2
urgency_rank normal = 1
urgency_rank low = 0

pub scores_follow :
    (s : UrgencyScores) (u v : Urgency)
    → check_scores s ≡ true
    → urgency_rank u < urgency_rank v
    → score_of s u < score_of s v
unfolding check_scores
scores_follow s low low h l = absurd (omega arith)
scores_follow s low normal h l = ground arith
scores_follow s low high h l = ground arith
scores_follow s low critical h l = ground arith
scores_follow s normal low h l = absurd (omega arith)
scores_follow s normal normal h l = absurd (omega arith)
scores_follow s normal high h l = ground arith
scores_follow s normal critical h l = ground arith
scores_follow s high low h l = absurd (omega arith)
scores_follow s high normal h l = absurd (omega arith)
scores_follow s high high h l = absurd (omega arith)
scores_follow s high critical h l = ground arith
scores_follow s critical v h l = absurd (above v l)
  where
    above : (v : Urgency) → 3 < urgency_rank v → ⊥
    above critical l = omega arith
    above high l = omega arith
    above normal l = omega arith
    above low l = omega arith

module _ (fl : Floats) where
  -- `Preferences`
  pub record Preferences : Type 0 where
    pub quality : Quality
    pub privacy : Privacy
    pub max_cost_usd : fl.Float
    pub latency_target_ms : ℕ

  abbrev pub check_preferences : Preferences → Bool
  check_preferences p =
      fl.le (fl.of_ℕ 0) p.max_cost_usd
      && fl.le p.max_cost_usd (fl.of_ℕ 10)
      && leb 1 p.latency_target_ms
      && leb p.latency_target_ms 120000

  -- `ScenarioPolicy`
  pub record ScenarioPolicy : Type 0 where
    pub weight : ℕ
    pub defaults : Preferences

  abbrev pub check_scenario : ScenarioPolicy → Bool
  check_scenario s = leb s.weight 500 && check_preferences s.defaults

  -- `Scenarios`
  pub record Scenarios : Type 0 where
    pub production_incident_policy : ScenarioPolicy
    pub customer_escalation_policy : ScenarioPolicy
    pub finance_summary_policy : ScenarioPolicy
    pub marketing_batch_policy : ScenarioPolicy

  abbrev pub scenario_of : Scenarios → Scenario → ScenarioPolicy
  scenario_of s production_incident = s.production_incident_policy
  scenario_of s customer_escalation = s.customer_escalation_policy
  scenario_of s finance_summary = s.finance_summary_policy
  scenario_of s marketing_batch = s.marketing_batch_policy

  -- `AutomationPolicy`
  pub record AutomationPolicy : Type 0 where
    pub urgency_scores : UrgencyScores
    pub scenarios : Scenarios
    pub queue : QueuePolicy

  -- The limits of the parts, and `_finance_privacy_locked`.
  unfoldable pub check_automation : AutomationPolicy → Bool
  unfolding check_scores
  check_automation a =
      check_scores a.urgency_scores
      && check_scenario a.scenarios.production_incident_policy
      && check_scenario a.scenarios.customer_escalation_policy
      && check_scenario a.scenarios.finance_summary_policy
      && check_scenario a.scenarios.marketing_batch_policy
      && check_queue_policy a.queue
      && is_high a.scenarios.finance_summary_policy.defaults.privacy

  -- `GatewayPolicy`
  abbrev pub check_gateway : RoutingPolicy fl → Bool
  check_gateway g =
      leb 1 g.assumed_output_tokens
      && leb g.assumed_output_tokens 32768
      && fl.le (fl.of_ℕ 0) g.balanced_price_tolerance
      && fl.le g.balanced_price_tolerance (fl.of_ℕ 2)

  -- `PolicyDraft`
  pub record PolicyDraft : Type 0 where
    pub schema_version : ℕ
    pub gateway : RoutingPolicy fl
    pub automation : AutomationPolicy

  unfoldable pub check_draft : PolicyDraft → Bool
  unfolding check_automation
  check_draft d = d.schema_version == 1 && check_gateway d.gateway && check_automation d.automation

  -- `AutomationIntent`
  pub record AutomationIntent : Type 0 where
    pub employee : Text
    pub department : Department
    pub scenario : Scenario
    pub urgency : Urgency
    pub prompt : Text
    pub preferences : Preferences

  unfoldable pub check_intent : AutomationIntent → Bool
  check_intent i =
      leb 1 (length i.employee)
      && leb (length i.employee) 80
      && leb 1 (length i.prompt)
      && leb (length i.prompt) 20000
      && check_preferences i.preferences

  -- `_score`
  unfoldable pub score : PolicyDraft → AutomationIntent → ℕ
  score d i =
      score_of d.automation.urgency_scores i.urgency
      + (scenario_of d.automation.scenarios i.scenario).weight
