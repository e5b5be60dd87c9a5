-- ===== src/Rules/Tests.antt =====
-- Tests of the pane of rules.
use cal_stack.Base.{◌≡◌, refl, true, none, some, [], ◌∷◌, codes, text_eq}
use cal_stack.Rules.{
  label_of, join_texts, rule_row, fresh_rule_form, sms, text_message, choose_action, rule_body,
  submit_rule,
}

shown :
    rule_row (record {
      id = codes "r1";
      name = codes "Remind";
      trigger_type = codes "task_due";
      calendar_id = none;
      actions = some (codes "sms" ∷ codes "pager" ∷ []);
      enabled = true;
    })
    ≡ record {
      name = codes "Remind";
      trigger = codes "Task due";
      scope = codes "All calendars";
      actions = codes "SMS, pager";
      enabled = true;
    }
unfolding rule_row label_of join_texts text_eq
shown = refl

sent :
    submit_rule (some (codes "w")) (
      choose_action sms
        (record (fresh_rule_form (codes "task_due")) { name = codes "Remind"; to = codes "+1" }))
    ≡ some (record {
      name = codes "Remind";
      trigger_type = codes "task_due";
      enabled = true;
      calendar_id = some (codes "w");
      action = text_message [] (codes "+1");
    })
unfolding submit_rule choose_action rule_body
sent = refl

untitled : submit_rule none (record (fresh_rule_form []) { name = codes "x" }) ≡ none
unfolding submit_rule
untitled = refl
