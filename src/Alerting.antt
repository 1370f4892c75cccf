-- ===== src/Alerting.antt =====
-- `AlertManager` (app/observability/alerting.py): alerts that rules fire and resolve. The history
-- and the table of active alerts share the alert objects, so these stand in a store, by numbers.
pub mod Active
pub mod History
use competitor_intelligence.Base.{
  ℕ, zero, suc, ◌+◌, ◌-◌, Bool, true, false, Option, none, some, String, List, [], ◌∷◌, ◌++◌,
  length, drop, if◌then◌else◌, leb, Text,
}
use competitor_intelligence.Dict.{Dict, string_key, nat_key, lookup, insert, erase}

pub data Severity : Type 0 where
  info warning critical : Severity

pub data Status : Type 0 where
  active resolved : Status

pub record Alert : Type 0 where
  pub name : String
  pub severity : Severity
  pub message : Text
  pub timestamp : String
  pub status : Status

-- What a rule's function returns; it may also raise.
pub data Check : Type 0 where
  fires : Text → Check
  quiet fails : Check

module _ (Session : Type 0) where
  pub record AlertRule : Type 0 where
    pub name : String
    pub severity : Severity
    pub check_fn : Option Session → Check
    pub enabled : Bool

  -- `webhook_tasks` lists the alerts for which a task was created.
  pub record AlertManager : Type 0 where
    pub objects : Dict ℕ Alert
    pub next_object : ℕ
    pub active_alerts : Dict String ℕ
    pub history : List ℕ
    pub rules : List AlertRule
    pub webhook_urls : List String
    pub webhook_tasks : List ℕ

  unfoldable pub init : AlertManager
  init = record {
    objects = [];
    next_object = 0;
    active_alerts = [];
    history = [];
    rules = [];
    webhook_urls = [];
    webhook_tasks = [];
  }

  unfoldable pub add_rule : AlertRule → AlertManager → AlertManager
  add_rule rule m = record m { rules = m.rules ++ rule ∷ [] }

  unfoldable pub set_webhooks : List String → AlertManager → AlertManager
  set_webhooks urls m = record m { webhook_urls = urls }

  unfoldable pub notify : List String → ℕ → List ℕ → List ℕ
  notify [] alert tasks = tasks
  notify (url ∷ urls) alert tasks = tasks ++ alert ∷ []

  -- An alert becomes an object of the store when the manager keeps it.
  keep_alert : Alert → AlertManager → AlertManager
  keep_alert alert m = record m {
    objects = insert m.next_object alert m.objects;
    next_object = m.next_object + 1;
    active_alerts = insert alert.name m.next_object m.active_alerts;
    history = m.history ++ m.next_object ∷ [];
    webhook_tasks = notify m.webhook_urls m.next_object m.webhook_tasks;
  }

  unfoldable pub fire_alert : Alert → AlertManager → AlertManager
  unfolding keep_alert
  fire_alert alert m = elim (lookup alert.name m.active_alerts) [
    | some already ↦ m
    | none ↦ keep_alert alert m
  ]

  unfoldable pub set_resolved : ℕ → Dict ℕ Alert → Dict ℕ Alert
  set_resolved n objects = elim (lookup n objects) [
    | none ↦ objects
    | some alert ↦ insert n (record alert { status = resolved }) objects
  ]

  drop_alert : String → ℕ → AlertManager → AlertManager
  drop_alert name n m = record m {
    objects = set_resolved n m.objects;
    active_alerts = erase name m.active_alerts;
    history = m.history ++ n ∷ [];
  }

  unfoldable pub resolve_alert : String → AlertManager → AlertManager
  unfolding drop_alert
  resolve_alert name m = elim (lookup name m.active_alerts) [
    | none ↦ m
    | some n ↦ drop_alert name n m
  ]

  module _ (session : Option Session) (stamp : String → String) where
    -- the body of the loop of `evaluate`, with the time at which each rule is looked at
    abbrev pub new_alert : AlertRule → Text → Alert
    new_alert rule message = record {
      name = rule.name;
      severity = rule.severity;
      message = message;
      timestamp = stamp rule.name;
      status = active;
    }

    apply_check : AlertRule → Check → AlertManager → AlertManager
    apply_check rule (fires message) m = fire_alert (new_alert rule message) m
    apply_check rule quiet m = resolve_alert rule.name m
    apply_check rule fails m = m

    unfoldable pub evaluate_rule : AlertRule → AlertManager → AlertManager
    unfolding apply_check
    evaluate_rule rule m = if rule.enabled then apply_check rule (rule.check_fn session) m else m

    unfoldable pub evaluate_rules : List AlertRule → AlertManager → AlertManager
    evaluate_rules [] m = m
    evaluate_rules (rule ∷ rules) m = evaluate_rules rules (evaluate_rule rule m)

    unfoldable pub evaluate : AlertManager → AlertManager
    unfolding evaluate_rules
    evaluate m = evaluate_rules m.rules m

  -- `self._history[-limit:]` for a limit that is not negative: `[-0:]` is the whole list
  unfoldable pub get_alert_history : ℕ → AlertManager → List ℕ
  get_alert_history zero m = m.history
  get_alert_history (suc limit) m = drop (length m.history - suc limit) m.history
