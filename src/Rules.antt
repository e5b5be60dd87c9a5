-- ===== src/Rules.antt =====
-- The pane of rules, rules.js: the table, the fields of a new rule, and its request. The loader of
-- the pane is in Panes.
pub mod Fields
mod Tests
use cal_stack.Base.{
  Bool, true, false, not, ◌&&◌, ◌||◌, Option, none, some, List, [], ◌∷◌, ◌++◌, if◌then◌else◌, map,
  Text, codes, text_eq, text_or, text_or?, truthy, truthy?,
}

pub record Rule : Type 0 where
  pub id : Text
  pub name : Text
  pub trigger_type : Text
  pub calendar_id : Option Text
  pub actions : Option (List Text)
  pub enabled : Bool

-- `TRIGGER_TEXT`
abbrev pub trigger_texts : List (Text × Text)
trigger_texts =
    (codes "event_created", codes "Event created")
    ∷ (codes "event_updated", codes "Event updated")
    ∷ (codes "event_deleted", codes "Event deleted")
    ∷ (codes "task_created", codes "Task created")
    ∷ (codes "task_updated", codes "Task updated")
    ∷ (codes "task_deleted", codes "Task deleted")
    ∷ (codes "task_completed", codes "Task completed")
    ∷ (codes "task_due", codes "Task due")
    ∷ (codes "journal_created", codes "Journal created")
    ∷ (codes "journal_updated", codes "Journal updated")
    ∷ (codes "journal_deleted", codes "Journal deleted")
    ∷ []

-- `ACTION_TEXT`
abbrev pub action_texts : List (Text × Text)
action_texts =
    (codes "create_notification", codes "In-app notification")
    ∷ (codes "sms", codes "SMS")
    ∷ (codes "webhook", codes "Webhook")
    ∷ []

-- `TEXTS[key] || key`
unfoldable pub label_of : List (Text × Text) → Text → Text
unfolding text_eq
label_of [] key = key
label_of ((k, v) ∷ texts) key = let rest = label_of texts key in if text_eq k key then v else rest

unfoldable pub join_texts : List Text → Text
join_texts [] = []
join_texts (s ∷ []) = s
join_texts (s ∷ t ∷ ss) = s ++ codes ", " ++ join_texts (t ∷ ss)

abbrev pub actions_of : Option (List Text) → List Text
actions_of none = []
actions_of (some actions) = actions

-- A row of `renderRules`.
pub record RuleRow : Type 0 where
  pub name : Text
  pub trigger : Text
  pub scope : Text
  pub actions : Text
  pub enabled : Bool

unfoldable pub rule_row : Rule → RuleRow
unfolding label_of join_texts
rule_row rule = record {
  name = rule.name;
  trigger = label_of trigger_texts rule.trigger_type;
  scope = if truthy? rule.calendar_id then codes "This calendar" else codes "All calendars";
  actions =
      text_or (join_texts (map (label_of action_texts) (actions_of rule.actions))) (codes "(none)");
  enabled = rule.enabled;
}

-- The kinds of actions that `#rule-action-type` offers.
pub data ActionType : Type 0 where
  create_notification webhook sms : ActionType

abbrev pub is_sms : ActionType → Bool
is_sms create_notification = false
is_sms webhook = false
is_sms sms = true

-- The fields of `#rule-form`, which rows are hidden, and whether the title is required.
pub record RuleForm : Type 0 where
  pub name : Text
  pub trigger : Text
  pub enabled : Bool
  pub global : Bool
  pub action_type : ActionType
  pub title : Text
  pub to : Text
  pub body : Text
  pub title_hidden : Bool
  pub title_required : Bool
  pub to_hidden : Bool

-- The form of the page; `reset` gives the fields these values again.
abbrev pub fresh_rule_form : Text → RuleForm
fresh_rule_form trigger = record {
  name = [];
  trigger = trigger;
  enabled = true;
  global = false;
  action_type = create_notification;
  title = [];
  to = [];
  body = [];
  title_hidden = false;
  title_required = true;
  to_hidden = true;
}

-- The handler of `#rule-action-type`.
unfoldable pub choose_action : ActionType → RuleForm → RuleForm
choose_action t f = record f {
  action_type = t;
  title_hidden = is_sms t;
  title_required = not (is_sms t);
  to_hidden = not (is_sms t);
}

-- `done` of the submit handler: `reset` leaves the attribute `required` as it is.
unfoldable pub rule_added : Text → RuleForm → RuleForm
rule_added trigger f = record (fresh_rule_form trigger) { title_required = f.title_required }

pub data RuleAction : Type 0 where
  text_message : Text → Text → RuleAction
  titled : ActionType → Text → Text → RuleAction

pub record RuleBody : Type 0 where
  pub name : Text
  pub trigger_type : Text
  pub enabled : Bool
  pub calendar_id : Option Text
  pub action : RuleAction

abbrev pub action_of : RuleForm → ActionType → RuleAction
action_of f sms = text_message f.body f.to
action_of f t = titled t f.body f.title

-- The body of the submit handler, for the scope of the pane.
unfoldable pub rule_body : Option Text → RuleForm → RuleBody
rule_body calendar_id f = record {
  name = f.name;
  trigger_type = f.trigger;
  enabled = f.enabled;
  calendar_id = if f.global then none else calendar_id;
  action = action_of f f.action_type;
}

-- The browser sends a form only if its required fields are filled in.
unfoldable pub submit_rule : Option Text → RuleForm → Option RuleBody
unfolding rule_body
submit_rule calendar_id f =
    if truthy f.name && (not f.title_required || truthy f.title)
    then some (rule_body calendar_id f)
    else none

-- What happens to the form: a kind of action is chosen, a field is edited, or a rule was added.
pub data RuleEvent : Type 0 where
  choose : ActionType → RuleEvent
  edit_fields : Text → Text → Text → Text → RuleEvent
  was_added : Text → RuleEvent

unfoldable pub handle_rule : RuleEvent → RuleForm → RuleForm
unfolding choose_action rule_added
handle_rule (choose t) f = choose_action t f
handle_rule (edit_fields name title to body) f = record f {
  name = name;
  title = title;
  to = to;
  body = body;
}
handle_rule (was_added trigger) f = rule_added trigger f

unfoldable pub run_rule : List RuleEvent → RuleForm → RuleForm
unfolding handle_rule
run_rule [] f = f
run_rule (e ∷ es) f = run_rule es (handle_rule e f)
