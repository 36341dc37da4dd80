-- ===== src/Status/Slack.antt =====
-- status/slack.go: the client of Slack's Web API. What an HTTP request yields is given by `answers`;
-- a method's result is read from it as the code reads it.
pub mod Paging
use ynab_auto_categorizer.Prelude.{
  ℕ, zero, suc, String, Bool, true, false, not, ◌&&◌, ◌||◌, Option, none, some, List, [], ◌∷◌, ltb,
  leb, nat_beq, ◌==◌, string_eq, if◌then◌else◌, contains,
}
use ynab_auto_categorizer.Scan.Redaction.{Text}

pub record Channel : Type 0 where
  pub id : String
  pub name : String

-- The fields that the code decodes; what a body leaves out is empty.
pub record Payload : Type 0 where
  pub channels : List Channel
  pub next_cursor : String
  pub ts : String

-- The ok and error fields, and the method's own fields unless they do not decode.
pub record Envelope : Type 0 where
  pub accepted : Bool
  pub error : String
  pub payload : Option Payload

pub data Response : Type 0 where
  no_response : Response  -- client.Do or the reading of the body fails
  status : ℕ → Response  -- any status but 200
  not_json : Response
  body : Envelope → Response

-- apiError, statusError, and every other error
pub data Failure : Type 0 where
  api_error : String → Failure
  status_error : ℕ → Failure
  other : Failure

pub data Reply {ℓ} (A : Type ℓ) : Type ℓ where
  got : A → Reply A
  failed : Failure → Reply A

abbrev pub not_posted : Failure → Bool
not_posted (api_error code) = true
not_posted (status_error n) = leb 400 n && ltb n 500
not_posted other = false

abbrev pub is_code : Failure → List String → Bool
is_code (api_error code) codes = contains code codes
is_code (status_error n) codes = false
is_code other codes = false

abbrev fields_of : Option Payload → Reply Payload
fields_of none = failed other
fields_of (some p) = got p

-- What `do` makes of a response.
unfoldable pub decode : Response → Reply Payload
decode no_response = failed other
decode (status n) = failed (status_error n)
decode not_json = failed other
decode (body e) = if e.accepted then fields_of e.payload else failed (api_error e.error)

-- The requests, without the name in the URL and the constant fields of a payload.
pub data Request : Type 0 where
  list_channels : String → Request  -- users.conversations, with the cursor
  post_message : String → Text → Request  -- chat.postMessage
  edit_message : String → String → Text → Request  -- chat.update

abbrev pub find_named : String → List Channel → Option String
find_named name [] = none
find_named name (c ∷ cs) = if c.name == name then some c.id else find_named name cs

-- The server: its response to a request may depend on how many came before it.
module _ (answers : ℕ → Request → Response) where
  -- One page, and the rest of the loop for the cursor of the next one.
  abbrev turn_page : String → Reply Payload → (String → ℕ → Reply String × ℕ) → ℕ → Reply String × ℕ
  turn_page name (failed e) rest n = (failed e, n)
  turn_page name (got p) rest n = elim (find_named name p.channels) [
    | some id ↦ (got id, n)
    | none ↦ if p.next_cursor == "" then (failed other, n) else rest p.next_cursor n
  ]

  -- `pages` is how many requests the deadline of the run leaves time for: one more fails. The second
  -- number counts the requests.
  unfoldable pub find_channel_from : ℕ → String → String → ℕ → Reply String × ℕ
  unfolding decode
  find_channel_from zero name cursor n = (failed other, suc n)
  find_channel_from (suc pages) name cursor n =
      turn_page name (decode (answers n (list_channels cursor)))
        (λ next. find_channel_from pages name next) (suc n)

  unfoldable pub find_private_channel : ℕ → String → ℕ → Reply String × ℕ
  unfolding find_channel_from
  find_private_channel pages name n = find_channel_from pages name "" n

  -- The ts of the message that was posted or edited.
  abbrev pub ts_of : Reply Payload → Reply String
  ts_of (failed e) = failed e
  ts_of (got p) = if p.ts == "" then failed other else got p.ts

  unfoldable pub send : String → String → Text → ℕ → Reply String × ℕ
  unfolding decode
  send channel ts text n =
      let request = if ts == "" then post_message channel text else edit_message channel ts text in
      (ts_of (decode (answers n request)), suc n)
