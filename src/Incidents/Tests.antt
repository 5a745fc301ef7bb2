-- ===== src/Incidents/Tests.antt =====
-- A policy, samples and trackers on which the theorems about the tracker are applied.
use mathlib.Core.Option
use mocop.Base.{
  String, ◌≡◌, refl, true, false, Option, none, some, [], ◌∷◌, if◌then◌else◌, string_key, or_else,
  arith,
}
use mocop.Base.Int.{pos}
use mocop.Base.Dict.{
  Dict, IsDict, get, has, put, remove, restrict, distinct, contains, contains-distinct,
  distinct-IsDistinct,
}
use mocop.Models.{ProbeResult, online}
use mocop.Incidents.Types.{warning, IncidentCondition, OpenIncident, IncidentPolicy}
use mocop.Incidents.Domains.{telemetry_unknown, condition_domains, missing_domains}
use mocop.Incidents.Tracker.State.{
  Runtime, Tracker, row, tables_of, store_tables, sustained, append_event,
}
use mocop.Incidents.Tracker.Update.{
  interrupt_recovery, prune, confirming, unobserved, emit, apply_sample, update, observe_all,
  recover_all, recover, recover_active, delayed, observe, observe_known, observe_active,
  observe_inactive,
}
use mocop.Incidents.Tracker.Phase.{Open, idle, open_incident, InPhase}
use mocop.Incidents.Tracker.Recover.{speaks}
use mocop.Incidents.Tracker.Refine.{advances}
use mocop.Incidents.Tracker.Runs.{
  Phases, AtPhases, IsKnown, Updated, update-refines, next_phases, final_phases, run, run-refines,
}
use mocop.Incidents.Tracker.Log.{Extends, IsBounded, update-Extends}
use mocop.Incidents.Tracker.Behaviour.{run_blind, run_observed}
use mocop.Incidents.Tracker.Latency.{IsConfirming, run_healthy, run_confirming, gap_forgets}
use mocop.Incidents.Tracker.Lifecycle.{
  init, restore_all, restore, put_in, restored_condition, empty_tracker, restored_phase, latest,
  init-AtPhases,
}
use mocop.Incidents.Tracker.Removal.{
  remove_hosts, remove_hosts-AtPhases, has_active_condition, has_pending_condition,
  active_started_at, queries-AtPhases,
}

-- Timestamps that all parse to the same instant, and sets walked in order of first mention.
abbrev runtime : Runtime
runtime = record {
  epoch_seconds = λ text. some (pos 0);
  set_order = distinct;
  set_order-contains = contains-distinct;
  set_order-IsDistinct = distinct-IsDistinct;
}

abbrev hot : String → IncidentCondition
hot at = record {
  key = "cpu";
  category = "cpu";
  resource = "CPU";
  severity = warning;
  value = some (pos 9600);
  threshold = some (pos 9000);
  observed_at = at;
  detail = none;
  open_after_cycles = 2;
  recovery_cycles = 2;
  group_key = none;
  open_after_seconds = pos 0;
  below_threshold = false;
  critical_at = some (pos 9900);
  recovery_margin = pos 500;
}

-- The message "hot" is a CPU condition.
abbrev by_message : Option String → String → Dict String IncidentCondition
by_message none at = []
by_message (some text) at = ("cpu", hot at) ∷ []

by_message-IsDict : (m : Option String) (at : String) → IsDict (by_message m at)
unfolding get
by_message-IsDict none at = tt
by_message-IsDict (some text) at = (refl, tt)

abbrev policy : IncidentPolicy
policy = record {
  conditions = λ result. by_message result.message result.observed_at;
  conditions-IsDict = λ result. by_message-IsDict result.message result.observed_at;
  observed_domains = λ result. if online result then "system" ∷ "system_cpu" ∷ [] else [];
  recovery_cycles = 2;
}

abbrev sample : String → Option String → String → ProbeResult
sample status message at = record {
  host = "gpu-1";
  status = status;
  latency_ms = 4;
  gpus = [];
  message = message;
  observed_at = at;
  system = none;
  transport_retries = 0;
}

abbrev hot_sample : ProbeResult
hot_sample = sample "online" (some "hot") "t1"

abbrev cool_sample : ProbeResult
cool_sample = sample "online" none "t2"

abbrev lost_sample : ProbeResult
lost_sample = sample "offline" none "t3"

abbrev fresh : Tracker
fresh = init policy 10 [] []

abbrev all_idle : Phases
all_idle host key = idle

fresh-AtPhases : AtPhases fresh all_idle
fresh-AtPhases = init-AtPhases policy 10 [] []

abbrev saved : OpenIncident
saved = record { host = "gpu-1"; condition = hot "t0"; opened_at = "t0" }

abbrev resumed : Tracker
resumed = init policy 10 [] (saved ∷ [])

abbrev resumed_phases : Phases
resumed_phases host key = restored_phase 2 (latest (saved ∷ []) (λ _ _. none) host key)

resumed-AtPhases : AtPhases resumed resumed_phases
resumed-AtPhases = init-AtPhases policy 10 [] (saved ∷ [])

program : Unit {0}
unfolding init empty_tracker restore_all run update apply_sample tables_of store_tables observe_all
    observe observe_known observe_active observe_inactive interrupt_recovery prune confirming
    unobserved recover_all recover recover_active delayed has_active_condition restore put_in
    Option.bind get put remove restrict contains distinct sustained telemetry_unknown emit
    append_event
program = tt

-- The first hot sample leaves the condition pending, the second opens it.
opens_on_second :
    (Option.map
        (λ t. has_active_condition t "gpu-1" "cpu")
        (run runtime policy (hot_sample ∷ []) fresh)
      ≡ some false)
    × (Option.map
          (λ t. has_active_condition t "gpu-1" "cpu")
          (run runtime policy (hot_sample ∷ hot_sample ∷ []) fresh)
        ≡ some true)
unfolding program
opens_on_second = (refl, refl)

update-refines_example : Updated runtime policy hot_sample fresh all_idle
update-refines_example = update-refines runtime policy hot_sample fresh all_idle fresh-AtPhases

first : Updated runtime policy hot_sample fresh all_idle
first = update-refines runtime policy hot_sample fresh all_idle fresh-AtPhases

second :
    Updated runtime policy hot_sample first.after (next_phases runtime policy hot_sample all_idle)
second =
    update-refines runtime policy hot_sample first.after
      (next_phases runtime policy hot_sample all_idle) first.at

update-Extends_example :
    Extends hot_sample fresh.log first.after.log first.created × IsBounded first.after.log
unfolding init empty_tracker restore_all
update-Extends_example =
    update-Extends runtime policy hot_sample fresh first.after first.created (omega arith)
      first.returns

run-refines_example :
    (t' : Tracker) × (run runtime policy (hot_sample ∷ lost_sample ∷ []) fresh ≡ some t')
    × AtPhases t' (final_phases runtime policy (hot_sample ∷ lost_sample ∷ []) all_idle)
    × (IsKnown fresh all_idle
        → IsKnown t' (final_phases runtime policy (hot_sample ∷ lost_sample ∷ []) all_idle))
run-refines_example =
    run-refines runtime policy (hot_sample ∷ lost_sample ∷ []) fresh all_idle fresh-AtPhases

abbrev resumed_cpu : Open
resumed_cpu = record {
  condition = hot "t0";
  healthy = 0;
  change = none;
  opened_at = "t0";
  last_observed_at = "t0";
}

run_blind_example :
    (t' : Tracker) × (run runtime policy (lost_sample ∷ lost_sample ∷ []) resumed ≡ some t')
    × (get (row t'.active "gpu-1") "cpu" ≡ some (hot "t0"))
    × (get (row t'.opened_at "gpu-1") "cpu" ≡ some "t0")
    × (or_else (get (row t'.recoveries "gpu-1") "cpu") 0 ≡ 0)
unfolding get restored_condition
run_blind_example =
    run_blind runtime policy "gpu-1" "cpu" (lost_sample ∷ lost_sample ∷ []) resumed resumed_phases
      resumed_cpu resumed-AtPhases refl ((λ _. (refl, refl)), ((λ _. (refl, refl)), tt))

run_observed_example :
    (t' : Tracker) × (run runtime policy (hot_sample ∷ []) resumed ≡ some t')
    × (has (row t'.active "gpu-1") "cpu" ≡ true)
    × (get (row t'.opened_at "gpu-1") "cpu" ≡ some "t0")
unfolding get restored_condition
run_observed_example =
    run_observed runtime policy "gpu-1" "cpu" (hot_sample ∷ []) resumed resumed_phases resumed_cpu
      resumed-AtPhases refl (λ _. refl, tt)

run_healthy_example :
    (t' : Tracker) × (run runtime policy (cool_sample ∷ cool_sample ∷ []) resumed ≡ some t')
    × (get (row t'.active "gpu-1") "cpu" ≡ none)
unfolding program restored_condition advances speaks condition_domains missing_domains
run_healthy_example =
    run_healthy runtime policy "gpu-1" "cpu" cool_sample (cool_sample ∷ []) resumed resumed_phases
      resumed_cpu resumed-AtPhases refl ((refl, refl, refl), ((refl, refl, refl), tt))

run_confirming_example :
    (t' : Tracker) × (run runtime policy (hot_sample ∷ hot_sample ∷ []) fresh ≡ some t')
    × (has (row t'.active "gpu-1") "cpu" ≡ true)
unfolding get restored_condition
run_confirming_example =
    run_confirming runtime policy "gpu-1" "cpu" warning 2 (hot_sample ∷ hot_sample ∷ []) fresh
      all_idle (omega arith) fresh-AtPhases refl (confirms, (confirms, tt))
  where
    confirms : IsConfirming runtime policy "gpu-1" "cpu" warning 2 hot_sample
    confirms = (hot "t1", refl, refl, refl, refl, refl, refl)

gap_forgets_example :
    (t' : Tracker) × (run runtime policy (cool_sample ∷ []) fresh ≡ some t')
    × (has (row t'.active "gpu-1") "cpu" ≡ false)
    × (has (row t'.candidates "gpu-1") "cpu" ≡ false)
unfolding program
gap_forgets_example =
    gap_forgets runtime policy "gpu-1" "cpu" cool_sample fresh all_idle fresh-AtPhases refl
      (λ new e. cc) refl

init-AtPhases_example : InPhase (tables_of resumed "gpu-1") "cpu" (open_incident resumed_cpu)
unfolding restored_condition
init-AtPhases_example = init-AtPhases policy 10 [] (saved ∷ []) "gpu-1" "cpu"

resumed-IsKnown : IsKnown resumed resumed_phases
unfolding program
resumed-IsKnown host gone key = ground arith

remove_hosts-AtPhases_example :
    InPhase (tables_of (remove_hosts runtime ("gpu-2" ∷ []) resumed) "gpu-1") "cpu" idle
unfolding contains
remove_hosts-AtPhases_example =
    remove_hosts-AtPhases runtime ("gpu-2" ∷ []) resumed resumed_phases "gpu-1" "cpu"
      resumed-AtPhases resumed-IsKnown

queries-AtPhases_example :
    (has_active_condition resumed "gpu-1" "cpu" ≡ true)
    × (has_pending_condition resumed "gpu-1" "cpu" ≡ false)
    × (active_started_at resumed "gpu-1" "cpu" ≡ some "t0")
queries-AtPhases_example = queries-AtPhases resumed resumed_phases "gpu-1" "cpu" resumed-AtPhases
