-- ===== src/Injection.antt =====
-- app/harness/security/injection_guard.py: the guard on prompt injection.
--
-- `finds pattern text` is `re.finds` with the compiled pattern and IGNORECASE, a parameter.
pub mod Payload
use project_b_multi_agent.Json.{
  Fields, Items, Value, arr, cons, end, field, flag, join_text, nil, null, num, obj, text,
}
use project_b_multi_agent.Prelude.{
  Bool, List, Option, String, [], false, if◌then◌else◌, none, not, some, true, ◌&&◌, ◌++◌, ◌==◌,
  ◌||◌, ◌∷◌,
}

pub data Severity : Type 0 where
  low_risk medium_risk high_risk : Severity

pub data GuardAction : Type 0 where
  allow_text warn_text block_text : GuardAction

pub record Finding : Type 0 where
  pub detected : Bool
  pub severity : Severity
  pub reason : String
  pub matched_patterns : List String
  pub action : GuardAction

abbrev pub Patterns : Type 0
Patterns = List (String × String)

abbrev pub Search : Type 0
Search = String → String → Bool

abbrev pub high_block_patterns : Patterns
high_block_patterns =
    ("bypass\\s+approval", "绕过审批")
    ∷ ("disable\\s+policy", "关闭策略")
    ∷ ("approve\\s+yourself", "自动批准")
    ∷ ("绕过审批", "绕过审批")
    ∷ ("自动批准", "自动批准")
    ∷ ("关闭策略", "关闭策略")
    ∷ ("直接调用工具", "直接调用工具")
    ∷ ("call\\s+tool\\s+directly", "直接调用工具")
    ∷ ("skip\\s+validation", "跳过校验")
    ∷ ("drop\\s+table", "删除表")
    ∷ ("delete\\s+from", "删除数据")
    ∷ ("update\\s+users", "修改用户数据")
    ∷ ("insert\\s+into", "插入数据")
    ∷ ("删除表", "删除表")
    ∷ ("修改数据库", "修改数据库")
    ∷ []

abbrev pub medium_block_patterns : Patterns
medium_block_patterns =
    ("reveal\\s+system\\s+prompt", "泄露系统提示词")
    ∷ ("泄露系统提示词", "泄露系统提示词")
    ∷ ("show\\s+system\\s+prompt", "泄露系统提示词")
    ∷ ("ignore\\s+previous\\s+instructions?", "忽略之前的指令")
    ∷ ("ignore\\s+above\\s+instructions?", "忽略以上指令")
    ∷ ("忽略以上指令", "忽略以上指令")
    ∷ ("忽略之前的规则", "忽略之前的规则")
    ∷ []

abbrev pub medium_warn_patterns : Patterns
medium_warn_patterns =
    ("ignore\\s+(all\\s+)?(previous|prior|above)\\s+(rules?|instructions?|prompts?)", "模糊提示注入")
    ∷ ("forget\\s+(all\\s+)?(previous|prior|above)", "模糊提示注入")
    ∷ ("disregard\\s+(all\\s+)?(previous|prior|above)", "模糊提示注入")
    ∷ []

-- the labels of the patterns that are found
unfoldable pub labels : Search → Patterns → String → List String
labels finds [] prompt = []
labels finds ((pattern, label) ∷ patterns) prompt =
    let rest = labels finds patterns prompt in if finds pattern prompt then label ∷ rest else rest

-- `", ".join(matched)`
abbrev pub comma_joined : List String → String
comma_joined [] = ""
comma_joined (s ∷ []) = s
comma_joined (s ∷ t ∷ ss) = join_text (s ∷ ", " ∷ comma_joined (t ∷ ss) ∷ [])

abbrev pub no_finding : Finding
no_finding = record {
  detected = false;
  severity = low_risk;
  reason = "";
  matched_patterns = [];
  action = allow_text;
}

abbrev pub finding_of : Severity → GuardAction → String → List String → Finding
finding_of severity action lead matched = record {
  detected = true;
  severity = severity;
  reason = join_text (lead ∷ comma_joined matched ∷ []);
  matched_patterns = matched;
  action = action;
}

-- the three searches of `check_text`, each with what the one before it matched
abbrev pub after_warn : List String → Finding
after_warn [] = no_finding
after_warn (s ∷ ss) = finding_of medium_risk warn_text "可能存在提示注入: " (s ∷ ss)

abbrev pub after_medium : Search → String → List String → Finding
after_medium finds prompt [] = after_warn (labels finds medium_warn_patterns prompt)
after_medium finds prompt (s ∷ ss) = finding_of medium_risk block_text "检测到提示注入模式: " (s ∷ ss)

abbrev pub after_high : Search → String → List String → Finding
after_high finds prompt [] = after_medium finds prompt (labels finds medium_block_patterns prompt)
after_high finds prompt (s ∷ ss) = finding_of high_risk block_text "检测到高风险注入模式: " (s ∷ ss)

unfoldable pub check_text : Search → String → Finding
unfolding labels
check_text finds prompt =
    if prompt == ""
    then no_finding
    else after_high finds prompt (labels finds high_block_patterns prompt)

-- `_collect_strings`, in the order in which it appends
unfoldable mutual
  pub collect_strings : Value → List String
  collect_strings null = []
  collect_strings (flag b) = []
  collect_strings (num n) = []
  collect_strings (text s) = if s == "" then [] else s ∷ []
  collect_strings (arr xs) = collect_items xs
  collect_strings (obj d) = collect_fields d

  pub collect_items : Items → List String
  collect_items nil = []
  collect_items (cons v xs) = collect_strings v ++ collect_items xs

  pub collect_fields : Fields → List String
  collect_fields end = []
  collect_fields (field k v d) = collect_strings v ++ collect_fields d

abbrev pub is_block : GuardAction → Bool
is_block block_text = true
is_block _ = false

abbrev pub is_high_risk : Severity → Bool
is_high_risk high_risk = true
is_high_risk _ = false

abbrev pub worse_of : Finding → Option Finding → Option Finding
worse_of finding none = some finding
worse_of finding (some worst) =
    if (is_block finding.action && not (is_block worst.action))
      || (is_high_risk finding.severity && not (is_high_risk worst.severity))
    then some finding
    else some worst

unfoldable pub worst_of : Search → List String → Option Finding → Option Finding
unfolding check_text
worst_of finds [] worst = worst
worst_of finds (s ∷ ss) worst =
    let finding = check_text finds s in
    worst_of finds ss (if finding.detected then worse_of finding worst else worst)

abbrev pub or_no_finding : Option Finding → Finding
or_no_finding none = no_finding
or_no_finding (some worst) = worst

unfoldable pub check_payload : Search → Fields → Finding
unfolding worst_of collect_fields
check_payload finds payload = or_no_finding (worst_of finds (collect_fields payload) none)
