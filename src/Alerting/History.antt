-- ===== src/Alerting/History.antt =====
-- The history of alerts: each entry reads as its alert is now, not as it was when it was written.
use mathlib.Core.Option.{some-injective}
use competitor_intelligence.Base.{
  ◌≢◌, ℕ, ◌<◌, ◌≡◌, refl, arith, sym, ◌∙◌, ap, subst, Option, none, some, String, List, [], ◌∷◌,
  ◌++◌, inl, inr, Option-cases, Bool-cases, string_discrete,
}
use competitor_intelligence.Dict.{Dict, string_key, nat_key, lookup, insert, erase}
use competitor_intelligence.Dict.Laws.{
  lookup-insert_self, lookup-erase_self, found-insert, found-erase, lookup-insert, lookup-erase,
}
use competitor_intelligence.Alerting.{
  Alert, active, resolved, Check, fires, quiet, fails, AlertRule, AlertManager, fire_alert,
  resolve_alert, apply_check, evaluate_rule, evaluate_rules, evaluate, new_alert, keep_alert,
  drop_alert, set_resolved,
}

resolved≢active : resolved ≢ active
resolved≢active e = cc

insert_other :
    (k j : String) (n v : ℕ) (d : Dict String ℕ)
    → lookup k d ≡ none
    → lookup j d ≡ some n
    → lookup j (insert k v d) ≡ some n
insert_other k j n v d new h = ground (arith, lookup-insert k j v d)

insert_past :
    (n k : ℕ) (a b : Alert) (d : Dict ℕ Alert)
    → n ≢ k
    → lookup k d ≡ some b
    → lookup k (insert n a d) ≡ some b
insert_past n k a b d apart there = ground (arith, lookup-insert n k a d)

erase_other :
    (k j : String) (n i : ℕ) (d : Dict String ℕ)
    → lookup k d ≡ some n
    → lookup j d ≡ some i
    → n ≢ i
    → lookup j (erase k d) ≡ some i
erase_other k j n i d h t apart = elim (string_discrete k j) [
  | yes p ↦ absurd (apart (some-injective _ _ (sym h ∙ subst (λ x. lookup x d ≡ some i) (sym p) t)))
  | no q ↦ ground (arith, lookup-erase k j d)
]

module _ (Session : Type 0) where
  -- Objects have the numbers given out so far; an object is active exactly when it is the one that
  -- the table of active alerts has under its name.
  pub record IsValid (m : AlertManager Session) : Type 0 where
    pub numbered : (n : ℕ) (a : Alert) → lookup n m.objects ≡ some a → n < m.next_object
    pub tabled :
        (n : ℕ) (a : Alert)
        → lookup n m.objects ≡ some a
        → a.status ≡ active
        → lookup a.name m.active_alerts ≡ some n
    pub present :
        (name : String) (n : ℕ)
        → lookup name m.active_alerts ≡ some n
        → (a : Alert) × (lookup n m.objects ≡ some a) × (a.name ≡ name) × (a.status ≡ active)

  module _ (m : AlertManager Session) (v : IsValid m) where
    keep_alert-IsValid :
        (a : Alert)
        → a.status ≡ active
        → lookup a.name m.active_alerts ≡ none
        → IsValid (keep_alert Session a m)
    unfolding keep_alert
    keep_alert-IsValid a act new = record {
      numbered = λ n b h. elim (found-insert m.next_object n a b m.objects h) [
        | inl (here, same) ↦ omega (arith, here)
        | inr (other, old) ↦ omega (arith, v.numbered n b old)
      ];
      tabled = λ n b h s. elim (found-insert m.next_object n a b m.objects h) [
        | inl (here, same) ↦
            rw (← same, ← here) (lookup-insert_self a.name m.next_object m.active_alerts)
        | inr (other, old) ↦
            insert_other a.name b.name n m.next_object m.active_alerts new (v.tabled n b old s)
      ];
      present = λ name n h. elim (found-insert a.name name m.next_object n m.active_alerts h) [
        | inl (here, same) ↦
            (a, rw (← same) (lookup-insert_self m.next_object a m.objects), here, act)
        | inr (other, old) ↦
            let (b, found, named, is) = v.present name n old in
            let young : n < m.next_object = v.numbered n b found in
            (b, ground (arith, lookup-insert m.next_object n a m.objects), named, is)
      ];
    }

    drop_alert-IsValid :
        (name : String) (n : ℕ)
        → lookup name m.active_alerts ≡ some n
        → IsValid (drop_alert Session name n m)
    unfolding drop_alert set_resolved
    drop_alert-IsValid name n h =
        let (a, found, named, is) = v.present name n h in
        let r : Alert = record a { status = resolved } in
        rw (found, set_resolved)
          (record {
            numbered = λ k b g. elim (found-insert n k r b m.objects g) [
              | inl (here, same) ↦ omega (arith, here, v.numbered n a found)
              | inr (other, old) ↦ v.numbered k b old
            ];
            tabled = λ k b g s. elim (found-insert n k r b m.objects g) [
              | inl (here, same) ↦ absurd (resolved≢active (ap (λ (x : Alert). x.status) same ∙ s))
              | inr (other, old) ↦
                  let t = v.tabled k b old s in
                  erase_other name b.name n k m.active_alerts h t other
            ];
            present = λ other k g.
                let (differs, old) = found-erase name other k m.active_alerts g in
                let (b, there, called, act) = v.present other k old in
                let apart : n ≢ k = λ e. differs (
                  sym named
                  ∙ ap (λ (x : Alert). x.name)
                      (some-injective _ _
                        (sym found ∙ subst (λ x. lookup x m.objects ≡ some b) (sym e) there))
                  ∙ called) in
                (b, insert_past n k r b m.objects apart there, called, act);
          })

  module _ (session : Option Session) (stamp : String → String) where
    fire_alert-IsValid :
        (a : Alert) (m : AlertManager Session)
        → a.status ≡ active
        → IsValid m
        → IsValid (fire_alert Session a m)
    unfolding fire_alert
    fire_alert-IsValid a m act v = elim (Option-cases (lookup a.name m.active_alerts)) [
      | inl new ↦ rw (new, fire_alert) (keep_alert-IsValid m v a act new)
      | inr (n, old) ↦ rw (old, fire_alert) v
    ]

    resolve_alert-IsValid :
        (name : String) (m : AlertManager Session)
        → IsValid m
        → IsValid (resolve_alert Session name m)
    unfolding resolve_alert
    resolve_alert-IsValid name m v = elim (Option-cases (lookup name m.active_alerts)) [
      | inl absent ↦ rw (absent, resolve_alert) v
      | inr (n, here) ↦ rw (here, resolve_alert) (drop_alert-IsValid m v name n here)
    ]

    apply_check-IsValid :
        (rule : AlertRule Session) (c : Check) (m : AlertManager Session)
        → IsValid m
        → IsValid (apply_check Session session stamp rule c m)
    unfolding apply_check
    apply_check-IsValid rule (fires message) m v =
        fire_alert-IsValid (new_alert Session session stamp rule message) m refl v
    apply_check-IsValid rule quiet m v = resolve_alert-IsValid rule.name m v
    apply_check-IsValid rule fails m v = v

    evaluate_rules-IsValid :
        (rules : List (AlertRule Session)) (m : AlertManager Session)
        → IsValid m
        → IsValid (evaluate_rules Session session stamp rules m)
    unfolding evaluate_rules evaluate_rule
    evaluate_rules-IsValid [] m v = v
    evaluate_rules-IsValid (rule ∷ rules) m v = elim (Bool-cases rule.enabled) [
      | inl on ↦
          evaluate_rules-IsValid rules (evaluate_rule Session session stamp rule m)
            (rw (on, evaluate_rule) (apply_check-IsValid rule (rule.check_fn session) m v))
      | inr off ↦
          evaluate_rules-IsValid rules (evaluate_rule Session session stamp rule m)
            (rw (off, evaluate_rule) v)
    ]

    -- An evaluation keeps the invariant: an alert object is active exactly when the table of active
    -- alerts has it, under its own name.
    pub evaluate-IsValid :
        (m : AlertManager Session) → IsValid m → IsValid (evaluate Session session stamp m)
    unfolding evaluate
    evaluate-IsValid m v = evaluate_rules-IsValid m.rules m v

  -- When an alert that is not active fires and is then resolved, the history gets two entries for
  -- the same object, and both read "resolved": it no longer shows that the alert was ever active.
  pub fire_resolve_history :
      (a : Alert) (m : AlertManager Session)
      → lookup a.name m.active_alerts ≡ none
      → let m' = resolve_alert Session a.name (fire_alert Session a m) in
        (m'.history ≡ (m.history ++ m.next_object ∷ []) ++ m.next_object ∷ [])
        × (lookup m.next_object m'.objects ≡ some (record a { status = resolved }))
        × (lookup a.name m'.active_alerts ≡ none)
  unfolding fire_alert keep_alert resolve_alert drop_alert set_resolved
  fire_resolve_history a m new =
      rw (new, fire_alert)
        (rw (lookup-insert_self a.name m.next_object m.active_alerts, resolve_alert)
          (rw (lookup-insert_self m.next_object a m.objects, set_resolved)
            (refl, lookup-insert_self _ _ _, lookup-erase_self _ _)))
