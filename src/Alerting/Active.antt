-- ===== src/Alerting/Active.antt =====
-- Which alerts an evaluation leaves active.
use competitor_intelligence.Base.{
  ◌≡◌, refl, arith, ◌∙◌, ap, Bool, true, false, Option, String, List, [], ◌∷◌, inl, inr,
  Option-cases, Bool-cases, if◌then◌else◌, ite, string_discrete,
}
use competitor_intelligence.Dict.{string_key, lookup, contains}
use competitor_intelligence.Dict.Laws.{lookup-insert, lookup-erase}
use competitor_intelligence.Alerting.{
  Alert, Check, fires, quiet, fails, AlertRule, AlertManager, fire_alert, resolve_alert,
  apply_check, evaluate_rule, evaluate_rules, evaluate, new_alert, keep_alert, drop_alert,
}

module _ (Session : Type 0) (session : Option Session) (stamp : String → String) where
  abbrev pub is_active : String → AlertManager Session → Bool
  is_active name m = contains name m.active_alerts

  after_fire :
      (name : String) (a : Alert) (m : AlertManager Session)
      → is_active name (fire_alert Session a m)
        ≡ ite (string_discrete a.name name) true (is_active name m)
  unfolding fire_alert keep_alert
  after_fire name a m = elim (Option-cases (lookup a.name m.active_alerts)) [
    | inl new ↦
        rw (new, fire_alert)
          (ground (arith, lookup-insert a.name name m.next_object m.active_alerts))
    | inr (n, old) ↦ rw (old, fire_alert) (ground arith)
  ]

  after_resolve :
      (name other : String) (m : AlertManager Session)
      → is_active name (resolve_alert Session other m)
        ≡ ite (string_discrete other name) false (is_active name m)
  unfolding resolve_alert drop_alert
  after_resolve name other m = elim (Option-cases (lookup other m.active_alerts)) [
    | inl new ↦ rw (new, resolve_alert) (ground arith)
    | inr (n, old) ↦
        rw (old, resolve_alert) (ground (arith, lookup-erase other name m.active_alerts))
  ]

  -- What a rule says of its alert: it fires, it is quiet, or it leaves it as it is.
  unfoldable pub told : Check → Bool → Bool
  told (fires message) before = true
  told quiet before = false
  told fails before = before

  unfoldable pub standing : String → List (AlertRule Session) → Bool → Bool
  unfolding told
  standing name [] before = before
  standing name (rule ∷ rules) before = standing name rules (
      if rule.enabled
      then ite (string_discrete rule.name name) (told (rule.check_fn session) before) before
      else before)

  after_check :
      (name : String) (rule : AlertRule Session) (c : Check) (m : AlertManager Session)
      → is_active name (apply_check Session session stamp rule c m)
        ≡ ite (string_discrete rule.name name) (told c (is_active name m)) (is_active name m)
  unfolding apply_check told
  after_check name rule (fires message) m =
      after_fire name (new_alert Session session stamp rule message) m
  after_check name rule quiet m = after_resolve name rule.name m
  after_check name rule fails m = ground arith

  after_rule :
      (name : String) (rule : AlertRule Session) (m : AlertManager Session)
      → is_active name (evaluate_rule Session session stamp rule m) ≡ (
          if rule.enabled
          then ite
              (string_discrete rule.name name)
              (told (rule.check_fn session) (is_active name m))
              (is_active name m)
          else is_active name m)
  unfolding evaluate_rule
  after_rule name rule m = elim (Bool-cases rule.enabled) [
    | inl on ↦ rw (on, evaluate_rule) (after_check name rule (rule.check_fn session) m)
    | inr off ↦ rw (off, evaluate_rule) refl
  ]

  after_rules :
      (name : String) (rules : List (AlertRule Session)) (m : AlertManager Session)
      → is_active name (evaluate_rules Session session stamp rules m)
        ≡ standing name rules (is_active name m)
  unfolding evaluate_rules standing
  after_rules name [] m = refl
  after_rules name (rule ∷ rules) m =
      after_rules name rules (evaluate_rule Session session stamp rule m)
      ∙ ap (λ b. standing name rules b) (after_rule name rule m)

  -- After an evaluation an alert is active as the last enabled rule of its name says whose check
  -- did not raise, and if there is none, as it was before. Rules of other names do not matter.
  pub evaluate_active :
      (name : String) (m : AlertManager Session)
      → is_active name (evaluate Session session stamp m) ≡ standing name m.rules (is_active name m)
  unfolding evaluate
  evaluate_active name m = after_rules name m.rules m
