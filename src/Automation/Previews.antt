-- ===== src/Automation/Previews.antt =====
-- What the automation service makes of an intent: `_compile_preview` (automation/app/main.py) and
-- `preview_priority` (automation/app/policy_manager.py). The snippets of a preview, which are texts of
-- the same request, and the wording of reasons are left out.
mod Tests
use polygate.Prelude.{
  ℕ, ◌+◌, ◌≤◌, ◌<◌, ◌≡◌, refl, ap, Bool, true, false, not, ◌&&◌, Option, some, List, [], ◌∷◌, map,
  String, Text, if◌then◌else◌, arith,
}
use polygate.Prelude.Floats.{Floats}
use polygate.Gateway.Router.{Privacy}
use polygate.Automation.Versions.{PolicyVersion}
use polygate.Automation.Jobs.{Urgency, critical, high, normal, low}
use polygate.Automation.Drafts.{
  Scenario, production_incident, customer_escalation, finance_summary, marketing_batch, is_high,
  UrgencyScores, check_scores, score_of, urgency_rank, scores_follow, Preferences, scenario_of,
  AutomationPolicy, check_automation, PolicyDraft, check_draft, AutomationIntent, score,
}

-- `PREVIEW_TTL_SECONDS`
abbrev pub preview_ttl_seconds : ℕ
preview_ttl_seconds = 600

abbrev pub is_finance : Scenario → Bool
is_finance finance_summary = true
is_finance production_incident = false
is_finance customer_escalation = false
is_finance marketing_batch = false

-- The one adjustment that is noted.
pub data Adjustment : Type 0 where
  finance_requires_privacy : Adjustment

module _ (fl : Floats) where
  -- `GatewayRequest`, with the model "auto" and one message of the user.
  pub record GatewayRequest : Type 0 where
    pub prompt : Text
    pub polygate : Preferences fl

  -- `PreviewResponse`
  pub record PreviewResponse : Type 0 where
    pub preview_id : String
    pub expires_in_seconds : ℕ
    pub normalized_intent : AutomationIntent fl
    pub urgency : Urgency
    pub initial_score : ℕ
    pub gateway_request : GatewayRequest
    pub policy_adjustments : List Adjustment
    pub policy_version : Option ℕ

  -- The intent without the lack of privacy that its scenario forbids, and what is noted of it.
  abbrev pub needs_privacy : AutomationIntent fl → Bool
  needs_privacy i = is_finance i.scenario && not (is_high i.preferences.privacy)

  unfoldable pub normalize_intent : AutomationIntent fl → AutomationIntent fl × List Adjustment
  normalize_intent i =
      if needs_privacy i
      then (
        record i { preferences = record i.preferences { privacy = Privacy.high } },
        finance_requires_privacy ∷ [],
      )
      else (i, [])

  -- `_compile_preview`, under a new number.
  unfoldable pub compile_preview :
      String → AutomationIntent fl → PolicyVersion (PolicyDraft fl) → PreviewResponse
  unfolding normalize_intent score
  compile_preview id intent v =
      let (i, adjustments) = normalize_intent intent in
      record {
        preview_id = id;
        expires_in_seconds = preview_ttl_seconds;
        normalized_intent = i;
        urgency = i.urgency;
        initial_score = score fl v.policy i;
        gateway_request = record { prompt = i.prompt; polygate = i.preferences };
        policy_adjustments = adjustments;
        policy_version = some v.version;
      }

  -- `preview_priority`: the scores of each intent before and after.
  abbrev pub preview_priority :
      PolicyDraft fl → PolicyDraft fl → List (AutomationIntent fl) → List (ℕ × ℕ)
  preview_priority current draft intents = map (λ i. (score fl current i, score fl draft i)) intents

  -- Normalising an intent twice is normalising it once.
  pub normalize_intent_idem :
      (i : AutomationIntent fl)
      → normalize_intent (normalize_intent i).0 ≡ ((normalize_intent i).0, [])
  unfolding normalize_intent
  normalize_intent_idem i = ground arith

  scenario-weight :
      (a : AutomationPolicy fl) (s : Scenario)
      → check_automation fl a ≡ true
      → (scenario_of fl a.scenarios s).weight ≤ 500
  unfolding check_automation
  scenario-weight a production_incident h = ground arith
  scenario-weight a customer_escalation h = ground arith
  scenario-weight a finance_summary h = ground arith
  scenario-weight a marketing_batch h = ground arith

  score_of-le : (s : UrgencyScores) (u : Urgency) → check_scores s ≡ true → score_of s u ≤ 1000
  unfolding check_scores
  score_of-le s critical h = ground arith
  score_of-le s high h = ground arith
  score_of-le s normal h = ground arith
  score_of-le s low h = ground arith

  -- What a preview under a valid policy says.
  abbrev pub Previews :
      AutomationIntent fl → PolicyVersion (PolicyDraft fl) → PreviewResponse → Type 0
  Previews intent v p =
      (is_finance intent.scenario ≡ true → p.gateway_request.polygate.privacy ≡ Privacy.high)
      × (is_high intent.preferences.privacy ≡ true → p.normalized_intent ≡ intent)
      × (p.gateway_request.prompt ≡ intent.prompt)
      × (p.urgency ≡ intent.urgency)
      × (p.initial_score ≡ score fl v.policy intent)
      × (p.initial_score ≤ 1500)
      × ((other : AutomationIntent fl)
          → other.scenario ≡ intent.scenario
          → urgency_rank other.urgency < urgency_rank intent.urgency
          → score fl v.policy other < p.initial_score)
      × (p.policy_version ≡ some v.version)

  normalized :
      (i : AutomationIntent fl)
      → ((normalize_intent i).0.urgency ≡ i.urgency)
        × ((normalize_intent i).0.scenario ≡ i.scenario)
        × ((normalize_intent i).0.prompt ≡ i.prompt)
        × (is_high i.preferences.privacy ≡ true → (normalize_intent i).0 ≡ i)
        × (is_finance i.scenario ≡ true → (normalize_intent i).0.preferences.privacy ≡ Privacy.high)
  unfolding normalize_intent
  normalized i = (
    ground arith,
    ground arith,
    ground arith,
    λ h. ground arith,
    λ h. private_after i.preferences.privacy h refl,
  )
    where
      private_after :
          (p : Privacy)
          → is_finance i.scenario ≡ true
          → i.preferences.privacy ≡ p
          → (normalize_intent i).0.preferences.privacy ≡ Privacy.high
      private_after Privacy.high h e = ground arith
      private_after Privacy.standard h e = ground arith

  -- A preview of an intent under a valid policy asks for high privacy if the scenario is the summary of
  -- finances, keeps an intent whose privacy is high as it is, and keeps every prompt and urgency. Its
  -- score is the one that `preview_priority` shows, at most 1500, and above that of every less urgent
  -- intent of the same scenario; and it names the version of the policy.
  pub compile_preview-Previews :
      (id : String) (intent : AutomationIntent fl) (v : PolicyVersion (PolicyDraft fl))
      → check_draft fl v.policy ≡ true
      → Previews intent v (compile_preview id intent v)
  unfolding compile_preview check_draft check_automation score
  compile_preview-Previews id intent v h =
      let (urgency, scenario, prompt, same, privacy) = normalized intent in
      let valid : check_automation fl v.policy.automation ≡ true = ground arith in
      let ordered : check_scores v.policy.automation.urgency_scores ≡ true = ground arith in
      let scored : score fl v.policy (normalize_intent intent).0 ≡ score fl v.policy intent = λ i.
        score_of v.policy.automation.urgency_scores (urgency i)
        + (scenario_of fl v.policy.automation.scenarios (scenario i)).weight in
      (
        privacy,
        same,
        prompt,
        urgency,
        scored,
        omega (
          arith,
          scored,
          score_of-le v.policy.automation.urgency_scores intent.urgency ordered,
          scenario-weight v.policy.automation intent.scenario valid,
        ),
        λ other s l.
            let weight : (scenario_of fl v.policy.automation.scenarios other.scenario).weight
                ≡ (scenario_of fl v.policy.automation.scenarios intent.scenario).weight =
              ap (λ x. (scenario_of fl v.policy.automation.scenarios x).weight) s in
            omega (
              arith,
              scored,
              weight,
              scores_follow v.policy.automation.urgency_scores other.urgency intent.urgency ordered
                  l,
            ),
        refl,
      )
