-- ===== src/Actions/Planner.antt =====
-- `DeterministicActionPlanner` of actions.py: what it reads in an instruction. `upper` is `str.upper`.
use Prim.Native.Char.{Char, code}
use customer_data_foundation.Prelude.{
  ℕ, suc, Bool, true, false, not, ◌&&◌, ◌||◌, Option, none, some, String, Result, ok, err,
  value_error, ◌==◌, leb, if◌then◌else◌,
}
use customer_data_foundation.Text.{Unicode}
use customer_data_foundation.Actions.{
  Template, case_update, information_request, resolution_notice, Reason, status_update,
  information_requested, case_resolved, PlannedAction,
}

-- [A-Z0-9]
abbrev pub is_reference_char : ℕ → Bool
is_reference_char c = (leb 65 c && leb c 90) || (leb 48 c && leb c 57)

-- a prefix taken off a text
abbrev pub after_prefix : String → String → Option String
after_prefix String.[] t = some t
after_prefix (String.◌∷◌ p ps) String.[] = none
after_prefix (String.◌∷◌ p ps) (String.◌∷◌ c t) =
    let rest = after_prefix ps t in if code p == code c then rest else none

abbrev pub found : Option String → Bool
found none = false
found (some t) = true

-- `value in instruction`
unfoldable pub mentions : String → String → Bool
mentions value String.[] = found (after_prefix value String.[])
mentions value (String.◌∷◌ c t) = found (after_prefix value (String.◌∷◌ c t)) || mentions value t

unfoldable pub find_template : String → Option Template
unfolding mentions
find_template instruction =
    if mentions "case_update" instruction
    then some case_update
    else if mentions "information_request" instruction
    then some information_request
    else if mentions "resolution_notice" instruction
    then some resolution_notice
    else none

unfoldable pub find_reason : String → Option Reason
unfolding mentions
find_reason instruction =
    if mentions "status_update" instruction
    then some status_update
    else if mentions "information_requested" instruction
    then some information_requested
    else if mentions "case_resolved" instruction
    then some case_resolved
    else none

abbrev pub size : String → ℕ
size String.[] = 0
size (String.◌∷◌ c t) = suc (size t)

abbrev pub append : String → String → String
append String.[] t = t
append (String.◌∷◌ c s) t = String.◌∷◌ c (append s t)

module _ (u : Unicode) where
  open u use {is_word}

  abbrev pub longer : Bool → Char → String × Bool → String × Bool
  longer true c (run, ends) = (String.◌∷◌ c run, ends)
  longer false c (run, ends) = (String.[], not (is_word (code c)))

  -- the run of [A-Z0-9] that a text begins with, and whether no character of \w follows it
  unfoldable pub reference_run : String → String × Bool
  reference_run String.[] = (String.[], true)
  reference_run (String.◌∷◌ c t) = longer (is_reference_char (code c)) c (reference_run t)

  abbrev pub after_cust : String × Bool → Option String
  after_cust (run, ends) =
      if leb 3 (size run) && leb (size run) 32 && ends then some (append "CUST-" run) else none

  abbrev pub reference_after : Option String → Option String
  reference_after none = none
  reference_after (some t) = after_cust (reference_run t)

  -- \bCUST-[A-Z0-9]{3,32}\b at the beginning of a text, after a character that may be of \w
  unfoldable pub reference_at : Bool → String → Option String
  unfolding reference_run
  reference_at previous t = if previous then none else reference_after (after_prefix "CUST-" t)

  abbrev pub first_found : Option String → Option String → Option String
  first_found (some r) rest = some r
  first_found none rest = rest

  -- `re.search`
  unfoldable pub find_reference : Bool → String → Option String
  unfolding reference_at
  find_reference previous String.[] = none
  find_reference previous (String.◌∷◌ c t) =
      first_found (reference_at previous (String.◌∷◌ c t)) (find_reference (is_word (code c)) t)

  abbrev pub explicit :
      String → Option String → Option Template → Option Reason → Result PlannedAction
  explicit request_id (some reference) (some template) (some reason) = ok (record {
    action_type = "send_customer_followup";
    arguments = record { customer_reference = reference; template = template; reason = reason };
    provider = "deterministic_local";
    model = "controlled-parser-v1";
    provider_response_id = append "local-" request_id;
  })
  explicit request_id _ _ _ = err value_error

  -- `plan`
  unfoldable pub plan_locally : (String → String) → String → String → Result PlannedAction
  unfolding find_reference find_template find_reason
  plan_locally upper instruction request_id =
      explicit request_id (find_reference false (upper instruction)) (find_template instruction)
        (find_reason instruction)

abbrev pub all_chars : (ℕ → Bool) → String → Bool
all_chars test String.[] = true
all_chars test (String.◌∷◌ c t) = test (code c) && all_chars test t

abbrev pub is_run : Option String → Bool
is_run none = false
is_run (some run) = all_chars is_reference_char run && leb 3 (size run) && leb (size run) 32

-- the pattern of ActionArguments, ^CUST-[A-Z0-9]{3,32}$
unfoldable pub is_reference : String → Bool
is_reference t = is_run (after_prefix "CUST-" t)
