-- ===== src/Cmd/Health.antt =====
-- cmd/health.go: the answer to GET /healthz. An error's text is what scrub leaves of it.
use ynab_auto_categorizer.Prelude.{
  ℕ, ◌-◌, Bool, not, ◌&&◌, Option, none, some, [], leb, nat_beq, if◌then◌else◌,
}
use ynab_auto_categorizer.Scan.Redaction.{Text}
use ynab_auto_categorizer.Mirror.Rows.{Time}

pub record Health : Type 0 where
  pub stale_after : ℕ
  pub last_ok : Time
  pub last_err : Text

-- OK, Fail
unfoldable pub succeed : Time → Health → Health
succeed now h = record h { last_ok = now; last_err = [] }

unfoldable pub fail : Text → Health → Health
fail line h = record h { last_err = line }

-- The status, and the two fields of the body.
pub record Answer : Type 0 where
  pub status : ℕ
  pub last_sync_ok : Option Time
  pub last_error : Text

unfoldable pub healthy : Time → Health → Bool
healthy now h = not (nat_beq h.last_ok 0) && leb (now - h.last_ok) h.stale_after

-- A clock that went back gives a negative age, which is fresh too.
unfoldable pub serve : Time → Health → Answer
unfolding healthy
serve now h = record {
  status = if healthy now h then 200 else 503;
  last_sync_ok = if nat_beq h.last_ok 0 then none else some h.last_ok;
  last_error = h.last_err;
}
