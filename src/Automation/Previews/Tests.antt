-- ===== src/Automation/Previews/Tests.antt =====
-- A preview and a submission at concrete inputs (automation/app/main.py, automation/app/store.py).
use polygate.Prelude.{ℕ, ◌≡◌, refl, true, none, some, codes, lookup, insert}
use polygate.Gateway.Router.{Privacy, Quality}
use polygate.Gateway.Samples.{fixed, default_policy}
use polygate.Automation.Versions.{PolicyVersion, Status}
use polygate.Automation.Jobs.{high, default_queue_policy, check_queue_policy}
use polygate.Automation.Drafts.{
  finance, finance_summary, Preferences, ScenarioPolicy, PolicyDraft, AutomationIntent, check_draft,
  check_automation, check_scores, score,
}
use polygate.Automation.Previews.{compile_preview, Previews, compile_preview-Previews}
use polygate.Automation.MemoryStore.Submissions.{Submits, IsConsistent, submit_job-Submits}
use polygate.Automation.MemoryStore.{
  StoredPreview, MemoryStore, empty_store, save_preview, get_preview, submit_job,
}

abbrev prefers : Privacy → Preferences fixed
prefers p = record {
  quality = Quality.balanced;
  privacy = p;
  max_cost_usd = 1000000;
  latency_target_ms = 3000;
}

abbrev weighs : ℕ → Privacy → ScenarioPolicy fixed
weighs n p = record { weight = n; defaults = prefers p }

abbrev draft : PolicyDraft fixed
draft = record {
  schema_version = 1;
  gateway = default_policy;
  automation = record {
    urgency_scores = record {
      critical_score = 100;
      high_score = 70;
      normal_score = 40;
      low_score = 10;
    };
    scenarios = record {
      production_incident_policy = weighs 20 Privacy.standard;
      customer_escalation_policy = weighs 15 Privacy.standard;
      finance_summary_policy = weighs 10 Privacy.high;
      marketing_batch_policy = weighs 0 Privacy.standard;
    };
    queue = default_queue_policy;
  };
}

abbrev intent : AutomationIntent fixed
intent = record {
  employee = codes "Ann";
  department = finance;
  scenario = finance_summary;
  urgency = high;
  prompt = codes "sum it up";
  preferences = prefers Privacy.standard;
}

abbrev version : PolicyVersion (PolicyDraft fixed)
version = record {
  version = 4;
  status = Status.active;
  created_at = 100;
  created_by = "ops";
  change_note = "weights";
  rollback_from = none;
  policy = draft;
}

compile_preview-Previews_example :
    Previews fixed intent version (compile_preview fixed "preview_1" intent version)
unfolding check_draft check_automation check_scores check_queue_policy
compile_preview-Previews_example = compile_preview-Previews fixed "preview_1" intent version refl

scored : score fixed draft intent ≡ 80
unfolding score
scored = refl

abbrev stored : StoredPreview ℕ ℕ
stored = record {
  preview_id = "preview_1";
  urgency = high;
  initial_score = 80;
  gateway_request = 7;
  policy_version = some 4;
}

abbrev store : MemoryStore ℕ ℕ
store = save_preview ℕ ℕ stored (empty_store ℕ ℕ)

nothing_remembered : IsConsistent ℕ ℕ store
unfolding save_preview lookup
nothing_remembered key id h = cc

submit_job-Submits_example :
    let t = (submit_job ℕ ℕ true "preview_1" "k" "job_1" 100 store).1 in
    Submits ℕ ℕ stored "job_1" 100 none store
      (submit_job ℕ ℕ true "preview_1" "k" "job_1" 100 store)
    × IsConsistent ℕ ℕ t
    × (submit_job ℕ ℕ true "preview_1" "k" "job_2" 130 t
        ≡ submit_job ℕ ℕ true "preview_1" "k" "job_1" 100 store)
unfolding save_preview get_preview lookup insert
submit_job-Submits_example =
    submit_job-Submits ℕ ℕ stored stored "preview_1" "preview_1" "k" "job_1" "job_2" 100 130 store
      nothing_remembered refl refl
