-- ===== src/Rules/Fields.antt =====
-- Which fields of a new rule are shown and required.
use cal_stack.Base.{◌≡◌, refl, true, not, Option, some, List, [], ◌∷◌, Text, truthy}
use cal_stack.Rules.{
  create_notification, sms, is_sms, RuleForm, fresh_rule_form, choose_action, titled, rule_body,
  rule_added, submit_rule, RuleEvent, choose, edit_fields, was_added, handle_rule, run_rule,
}

-- The rows are those of the kind of action.
abbrev pub RowsFit : RuleForm → Type 0
RowsFit f = (f.title_hidden ≡ is_sms f.action_type) × (f.to_hidden ≡ not (is_sms f.action_type))

handle_rule-RowsFit : (e : RuleEvent) (f : RuleForm) → RowsFit f → RowsFit (handle_rule e f)
unfolding handle_rule choose_action rule_added
handle_rule-RowsFit (choose t) f h = (refl, refl)
handle_rule-RowsFit (edit_fields name title to body) f h = h
handle_rule-RowsFit (was_added trigger) f h = (refl, refl)

run_rule-RowsFit : (es : List RuleEvent) (f : RuleForm) → RowsFit f → RowsFit (run_rule es f)
unfolding run_rule
run_rule-RowsFit [] f h = h
run_rule-RowsFit (e ∷ es) f h = run_rule-RowsFit es (handle_rule e f) (handle_rule-RowsFit e f h)

-- Whatever is chosen, typed and added, the row of the title is shown exactly for an action with a
-- title, and the row of the number exactly for a text message.
run_rule-rows :
    (trigger : Text) (es : List RuleEvent)
    → ((run_rule es (fresh_rule_form trigger)).title_hidden
        ≡ is_sms (run_rule es (fresh_rule_form trigger)).action_type)
      × ((run_rule es (fresh_rule_form trigger)).to_hidden
          ≡ not (is_sms (run_rule es (fresh_rule_form trigger)).action_type))
run_rule-rows trigger es = run_rule-RowsFit es (fresh_rule_form trigger) (refl, refl)

-- After a rule with a text message was added, a notification without a title is sent too: the field
-- is shown and empty, but not required any more.
submit_rule-untitled :
    (trigger name body : Text) (scope : Option Text) (f : RuleForm)
    → truthy name ≡ true
    → submit_rule scope
        (run_rule (choose sms ∷ was_added trigger ∷ edit_fields name [] [] body ∷ []) f)
      ≡ some (record {
        name = name;
        trigger_type = trigger;
        enabled = true;
        calendar_id = scope;
        action = titled create_notification body [];
      })
unfolding submit_rule run_rule handle_rule choose_action rule_added rule_body
submit_rule-untitled trigger name body scope f t = rw t refl
