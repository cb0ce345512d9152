-- ===== src/Api.antt =====
-- api.py and auth.py: the HTTP handlers and who may call them. `jwt.decode` and the hashes are
-- arguments; a handler answers, or refuses with a status and a code.
pub mod Uploads
pub mod Imports
pub mod ActionCalls
pub mod Access
pub mod Recovery
pub mod Stored
pub mod First
pub mod Separation
pub mod Providers
pub mod Assistants
pub mod Assisted
mod ActionTests
mod AssistTests
mod Tests
use customer_data_foundation.Prelude.{
  ℕ, ◌≡◌, Bool, true, false, not, List, [], ◌∷◌, Option, none, some, String, str_eq, if◌then◌else◌,
  any_of, all_of, select, is_some, ◌||◌,
}
use customer_data_foundation.Text.{Text, Unicode, codes, text_eq, casefold}

pub data Answer (A : Type 0) : Type 0 where
  answer : A → Answer A
  refused : ℕ → String → Answer A

pub answer-injective : {A : Type 0} {a b : A} → answer a ≡ answer b → a ≡ b
answer-injective h = cc

pub record Principal : Type 0 where
  pub subject : String
  pub roles : List String

pub record Credentials : Type 0 where
  pub scheme : Text
  pub credentials : Text

-- the payload of a valid token: `sub` where it is a str, `roles` where it is a list, and the members
-- of that list where they are str
pub record Claims : Type 0 where
  pub sub : Option String
  pub roles : Option (List (Option String))

abbrev pub is_allowed : String → Bool
is_allowed role = str_eq role "operator" || str_eq role "auditor"

abbrev pub has_role : String → Principal → Bool
has_role role p = any_of (λ (r : String). str_eq r role) p.roles

abbrev pub unauthorized : Answer Principal
unauthorized = refused 401 "invalid_token"

-- the members that are str
abbrev pub strings : List (Option String) → List String
strings [] = []
strings (none ∷ rs) = strings rs
strings (some r ∷ rs) = r ∷ strings rs

unfoldable pub grant : String → List String → Answer Principal
grant subject [] = unauthorized
grant subject (r ∷ rs) = answer (record { subject = subject; roles = r ∷ rs })

unfoldable pub check_roles : String → Option (List (Option String)) → Answer Principal
unfolding grant
check_roles subject none = unauthorized
check_roles subject (some raw) =
    if not (all_of is_some raw)
    then unauthorized
    else grant subject (select is_allowed (strings raw))

unfoldable pub check_subject : Option String → Option (List (Option String)) → Answer Principal
unfolding check_roles
check_subject none roles = unauthorized
check_subject (some s) roles = if str_eq s "" then unauthorized else check_roles s roles

unfoldable pub check_claims : Option Claims → Answer Principal
unfolding check_subject
check_claims none = unauthorized
check_claims (some c) = check_subject c.sub c.roles

-- `jwt.decode` with the secret, the audience and the issuer of the settings is `decode`
unfoldable pub authenticate :
    Unicode → (Text → Option Claims) → Option Credentials → Answer Principal
unfolding check_claims casefold
authenticate u decode none = unauthorized
authenticate u decode (some c) =
    if not (text_eq (casefold u c.scheme) (codes "bearer"))
    then unauthorized
    else check_claims (decode c.credentials)

unfoldable pub require_role : String → Principal → Answer Principal
require_role role p = if has_role role p then answer p else refused 403 "forbidden"
