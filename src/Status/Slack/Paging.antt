-- ===== src/Status/Slack/Paging.antt =====
-- status/slack.go, findPrivateChannel: the loop over the pages finds what one list would show.
use ynab_auto_categorizer.Prelude.{
  ℕ, zero, suc, String, true, ◌≡◌, refl, Option, none, some, List, [], ◌∷◌, ◌++◌, arith,
  if◌then◌else◌, ◌==◌, string_eq, or_else,
}
use ynab_auto_categorizer.Status.Slack.{
  Channel, Payload, Envelope, Response, body, Reply, got, failed, other, Request, list_channels,
  decode, find_named, turn_page, find_channel_from, find_private_channel,
}

abbrev pub accepted : Payload → Envelope
accepted p = record { accepted = true; error = ""; payload = some p }

abbrev joined : List Channel → Option (List Channel) → Option (List Channel)
joined cs none = none
joined cs (some rest) = some (cs ++ rest)

-- All channels, if they fit in so many pages.
unfoldable pub all_channels : (String → Payload) → ℕ → String → Option (List Channel)
all_channels page zero cursor = none
all_channels page (suc n) cursor =
    let p = page cursor in
    let rest = all_channels page n p.next_cursor in
    if p.next_cursor == "" then some p.channels else joined p.channels rest

abbrev pub result_of : Option String → Reply String
result_of none = failed other
result_of (some id) = got id

find_named-append :
    (name : String) (xs ys : List Channel)
    → find_named name (xs ++ ys) ≡ or_else (find_named name xs) (find_named name ys)
find_named-append name [] ys = refl
find_named-append name (x ∷ xs) ys = ground (arith, find_named-append name xs ys)

module _ (answers : ℕ → Request → Response) (page : String → Payload)
    (served : (n : ℕ) (cursor : String)
      → answers n (list_channels cursor) ≡ body (accepted (page cursor)))
    (name : String) where
  find_from :
      (pages : ℕ) (cursor : String) (cs : List Channel) (n : ℕ)
      → all_channels page pages cursor ≡ some cs
      → (find_channel_from answers pages name cursor n).0 ≡ result_of (find_named name cs)
  unfolding all_channels find_channel_from decode
  find_from zero cursor cs n h = absurd (ground arith)
  find_from (suc pages) cursor cs n h = rw (served n cursor) (
      by_page (page cursor) (all_channels page pages (page cursor).next_cursor) h
        (λ rest e. find_from pages (page cursor).next_cursor rest (suc n) e))
    where
      by_page :
          (p : Payload) (more : Option (List Channel))
          → (if p.next_cursor == "" then some p.channels else joined p.channels more) ≡ some cs
          → ((rest : List Channel)
              → more ≡ some rest
              → (find_channel_from answers pages name p.next_cursor (suc n)).0
                ≡ result_of (find_named name rest))
          → (turn_page answers name
              (got p)
              (λ c m. find_channel_from answers pages name c m)
              (suc n)).0
            ≡ result_of (find_named name cs)
      by_page p none h k = ground arith
      by_page p (some rest) h k =
          ground (arith, k rest refl, find_named-append name p.channels rest)

  -- With a server that gives each cursor its page, and when the pages end before the run's deadline:
  -- the client finds the first channel of that name among all pages, and fails if there is none.
  pub find_private_channel_lem :
      (pages : ℕ) (cs : List Channel) (n : ℕ)
      → all_channels page pages "" ≡ some cs
      → (find_private_channel answers pages name n).0 ≡ result_of (find_named name cs)
  unfolding find_private_channel
  find_private_channel_lem pages cs n h = find_from pages "" cs n h
