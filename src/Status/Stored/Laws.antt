-- ===== src/Status/Stored/Laws.antt =====
-- store/status.go meets the interface that the updater takes, whichever statements the driver fails.
use ynab_auto_categorizer.Prelude.{
  String, Bool, true, ◌≡◌, refl, inl, inr, ap, Option, none, some, Result, ok, err, Error, arith,
  nat_beq, sym, Bool-cases, and_intro, and_left, and_right,
}
use ynab_auto_categorizer.Sql.{Session}
use ynab_auto_categorizer.Sql.Single.{Happened, write_tx-run, query-db, query-ok}
use ynab_auto_categorizer.Mirror.Rows.{Time}
use ynab_auto_categorizer.Status.Store.{Store, StatusState}
use ynab_auto_categorizer.Status.Stored.{
  StatusDb, StatusRow, status_of, get_status_state, put_attempt, put_message, put_backup,
  set_status_post_attempt, set_status_message, set_status_backup, sync_time_of, account_imports,
  checks_hold,
}

abbrev attempt_of : Session StatusDb → Time
attempt_of s = (status_of s.db.message).post_attempt_at

abbrev row_attempt : StatusDb → Time
row_attempt d = (status_of d.message).post_attempt_at

pub put_attempt_lem : (at : Time) (d : StatusDb) → row_attempt (put_attempt at d) ≡ at
unfolding put_attempt status_of
put_attempt_lem at d = elim (Bool-cases (nat_beq at 0)) [
  | inl z ↦ rw z (ground arith)
  | inr nz ↦ rw nz refl
]

put_message-attempt :
    (c t : String) (o : Option StatusRow) (d : StatusDb)
    → d.message ≡ o
    → row_attempt (put_message c t d) ≡ (status_of o).post_attempt_at
unfolding put_message status_of
put_message-attempt c t none d e = rw e refl
put_message-attempt c t (some r) d e = rw e refl

put_backup-attempt :
    (at : Time) (b : Bool) (o : Option StatusRow) (d : StatusDb)
    → d.message ≡ o
    → row_attempt (put_backup at b d) ≡ (status_of o).post_attempt_at
unfolding put_backup status_of
put_backup-attempt at b none d e = rw e refl
put_backup-attempt at b (some r) d e = rw e refl

-- A write that leaves the attempt alone leaves it alone whatever the outcome.
unmoved :
    (f : StatusDb → StatusDb) (old new : StatusDb) (r : Result (Unit {0}))
    → ((d : StatusDb) → row_attempt (f d) ≡ row_attempt d)
    → Happened f old r new
    → row_attempt new ≡ row_attempt old
unmoved f old new (ok tt) h k = rw k (h old)
unmoved f old new (err e) h k = ap row_attempt k.0

attempt-written :
    (at : Time) (old new : StatusDb) (r : Result (Unit {0}))
    → Happened (put_attempt at) old r new
    → r ≡ ok tt
    → row_attempt new ≡ at
attempt-written at old new (ok tt) k e = rw k (put_attempt_lem at old)
attempt-written at old new (err x) k e = absurd (ground arith)

attempt-unwritten :
    (at : Time) (old new : StatusDb) (r : Result (Unit {0})) (x : Error)
    → Happened (put_attempt at) old r new
    → r ≡ err x
    → row_attempt new ≡ row_attempt old
attempt-unwritten at old new (ok tt) x k e = absurd (ground arith)
attempt-unwritten at old new (err y) x k e = ap row_attempt k.0

-- store.DB as the updater's Store.
unfoldable pub store_db : Store (Session StatusDb)
unfolding get_status_state set_status_message set_status_backup set_status_post_attempt sync_time_of
    account_imports unmoved put_message-attempt put_backup-attempt attempt-written attempt-unwritten
store_db = record {
  get_status_state = get_status_state;
  set_status_message = set_status_message;
  set_status_backup = set_status_backup;
  set_status_post_attempt = set_status_post_attempt;
  get_sync_state = sync_time_of;
  account_imports = account_imports;
  attempt = attempt_of;
  attempt-message = λ c t s.
      unmoved (put_message c t) s.db (set_status_message c t s).1.db (set_status_message c t s).0
        (λ d. put_message-attempt c t d.message d refl) (write_tx-run (put_message c t) s);
  attempt-backup = λ at b s.
      unmoved (put_backup at b) s.db (set_status_backup at b s).1.db (set_status_backup at b s).0
        (λ d. put_backup-attempt at b d.message d refl) (write_tx-run (put_backup at b) s);
  attempt-get = λ s. ap row_attempt (query-db (λ d. status_of d.message) s);
  attempt-sync = λ p s. ap row_attempt (query-db _ s);
  attempt-imports = λ p s. ap row_attempt (query-db _ s);
  get-attempt = λ s st h.
      sym
        (ap (λ (x : StatusState). x.post_attempt_at) (query-ok (λ d. status_of d.message) s st h));
  set-attempt = λ at s.
      attempt-written at s.db (set_status_post_attempt at s).1.db (set_status_post_attempt at s).0
        (write_tx-run (put_attempt at) s);
  set_failed-attempt = λ at s e h. inl (
      attempt-unwritten at s.db (set_status_post_attempt at s).1.db (set_status_post_attempt at s).0
        e (write_tx-run (put_attempt at) s) h);
}

-- No write of the status row can violate a CHECK of the table.
checks_hold-put_attempt :
    (at : Time) (d : StatusDb) → checks_hold d ≡ true → checks_hold (put_attempt at d) ≡ true
unfolding put_attempt
checks_hold-put_attempt at d h = h

checks_hold-put_message :
    (c t : String) (d : StatusDb) → checks_hold d ≡ true → checks_hold (put_message c t d) ≡ true
unfolding put_message
checks_hold-put_message c t d h = and_right _ h

checks_hold-put_backup :
    (at : Time) (b : Bool) (d : StatusDb)
    → checks_hold d ≡ true
    → checks_hold (put_backup at b d) ≡ true
unfolding put_backup
checks_hold-put_backup at b d h = and_intro (and_left _ h) refl
