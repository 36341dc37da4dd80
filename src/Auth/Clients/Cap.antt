-- ===== src/Auth/Clients/Cap.antt =====
-- auth/clients.go, CreateClient and makeRoom: the cap on registered clients.
use ynab_auto_categorizer.Prelude.{
  ℕ, ◌+◌, ◌-◌, ◌≤◌, String, Bool, false, not, ◌||◌, ◌≡◌, refl, inl, inr, [], ◌∷◌, Result, ok, err,
  arith, Bool-cases, ◌==◌, string_eq, ltb, leb, is_some, keep, length, length-append, contains,
}
use ynab_auto_categorizer.Sql.{Session, ◌>>=◌, pure, raise, exec, exec_checked, query, next}
use ynab_auto_categorizer.Sql.Atomic.{Undone, IsAtomic-write_tx}
use ynab_auto_categorizer.Sql.Outcomes.{Establishes, Establishes-write_tx, Establishes-then}
use ynab_auto_categorizer.Table.{Table, find, delete}
use ynab_auto_categorizer.Mirror.Rows.{Time}
use ynab_auto_categorizer.Auth.Rows.{Auth, ClientRow}
use ynab_auto_categorizer.Auth.Storage.{in_tx, Tx}
use ynab_auto_categorizer.Auth.Clients.{
  NewClient, max_clients, register_client, row_of, make_room, make_room_for, evict, enough,
  insert_client, victims,
}

abbrev client_count : Auth → ℕ
client_count d = length d.clients

length-delete :
    {R : Type 0} (p : String → R → Bool) (t : Table String R)
    → length (delete p t) + length (keep (λ x. p x.0 x.1) t) ≡ length t
unfolding delete
length-delete p [] = refl
length-delete p ((k, r) ∷ t) = ground (arith, length-delete p t)

-- The eviction reports how many clients it removed.
count-evict :
    (now : Time) (excess : ℕ) (d : Auth)
    → client_count (evict now excess d).1 + (evict now excess d).0 ≡ client_count d
unfolding evict
count-evict now excess d = length-delete (λ k c. contains k (victims now excess d)) d.clients

room_for_made :
    (now : Time) (count : ℕ) (s : Session Auth) (u : Unit {0})
    → client_count s.db ≡ count
    → (make_room_for now count s).0 ≡ ok u
    → client_count (make_room_for now count s).1.db + 1 ≤ max_clients
unfolding make_room_for enough exec pure raise ◌>>=◌
room_for_made now count s u h = elim (Bool-cases (leb (count + 1) max_clients)) [
  | inl fits ↦ rw fits (λ e. ground arith)
  | inr full ↦ rw full (elim (Bool-cases (s.fault s.stmt)) [
    | inl bad ↦ rw bad (λ e. ground arith)
    | inr good ↦
        rw good
          (elim (Bool-cases
            (ltb (evict now (count + 1 - max_clients) s.db).0 (count + 1 - max_clients))) [
              | inl short ↦ rw short (λ e. ground arith)
              | inr all_gone ↦
                  rw all_gone (λ e. ground (arith, count-evict now (count + 1 - max_clients) s.db))
            ])
  ])
]

room_made : (now : Time) → Establishes (λ d. client_count d + 1 ≤ max_clients) (make_room now)
unfolding make_room query exec ◌>>=◌ next
room_made now = record {
  sure = λ s u. elim (Bool-cases (s.fault s.stmt)) [
    | inl bad ↦ rw bad (λ e. ground arith)
    | inr good ↦ rw good (room_for_made now (length s.db.clients) (next s) u refl)
  ];
}

inserted_within :
    (i : String) (c : ClientRow) (s : Session Auth) (u : Unit {0})
    → client_count s.db + 1 ≤ max_clients
    → (exec_checked (insert_client i c) s).0 ≡ ok u
    → client_count (exec_checked (insert_client i c) s).1.db ≤ max_clients
unfolding exec_checked insert_client
inserted_within i c s u h = elim (Bool-cases (s.fault s.stmt)) [
  | inl bad ↦ rw bad (λ e. ground arith)
  | inr good ↦ rw good (elim (Bool-cases (is_some (find i s.db.clients))) [
    | inl taken ↦ rw taken (λ e. ground arith)
    | inr free ↦ rw free (λ e. ground (arith, length-append s.db.clients ((i, c) ∷ [])))
  ])
]

registered_within :
    (now : Time) (i : String) (c : ClientRow)
    → Establishes
        (λ d. client_count d ≤ max_clients)
        (make_room now >>= λ _. exec_checked (insert_client i c))
registered_within now i c =
    Establishes-then (λ d. client_count d + 1 ≤ max_clients) (λ d. client_count d ≤ max_clients) _ _
      (room_made now) (λ _. inserted_within i c)

abbrev pub Capped : {A : Type 0} → Auth → Result A × Session Auth → Type 0
Capped old (ok u, s) = client_count s.db ≤ max_clients
Capped old (err e, s) = s.db ≡ old

-- CreateClient outside a caller's transaction, under any faults and whatever the number of clients
-- before: if it succeeds, at most MaxClients clients are registered, the new one included; if it
-- fails, nothing has changed.
pub registration-Capped :
    (now : Time) (c : NewClient) (name : String) (σ : Session Auth)
    → Capped σ.db (register_client false now c name σ)
unfolding register_client in_tx raise
registration-Capped now c name σ = elim (Bool-cases (c.id == "")) [
  | inl nameless ↦ rw nameless refl
  | inr named ↦ rw named (elim (Bool-cases (not c.is_public || c.has_secret)) [
    | inl secret ↦ rw secret refl
    | inr public ↦ rw public (
        by_result (tx σ).0 (tx σ).1
          ((Establishes-write_tx (λ d. client_count d ≤ max_clients) _ _
              (registered_within now c.id (row_of c name now))).sure
            σ)
          ((IsAtomic-write_tx _ _).undone σ))
  ])
]
  where
    tx : Tx
    tx = in_tx false (make_room now >>= λ _. exec_checked (insert_client c.id (row_of c name now)))

    by_result :
        (r : Result (Unit {0})) (s : Session Auth)
        → ((u : Unit {0}) → r ≡ ok u → client_count s.db ≤ max_clients)
        → Undone σ.db (r, s)
        → Capped σ.db (r, s)
    by_result (ok u) s a d = a u refl
    by_result (err e) s a d = d
