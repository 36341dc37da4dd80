-- ===== src/Auth/Clients/Live.antt =====
-- auth/clients.go, makeRoom: a client with a live grant is not evicted.
use ynab_auto_categorizer.Prelude.{
  ℕ, zero, suc, String, Bool, true, false, not, ◌&&◌, ◌||◌, ◌≡◌, refl, sym, ap, ◌∙◌, inl, inr,
  Option, some, List, [], ◌∷◌, ◌++◌, arith, Bool-cases, ◌==◌, string_eq, ltb, is_some, any, all,
  all-keep, all-map, take, keep, contains,
}
use ynab_auto_categorizer.Sql.{Session}
use ynab_auto_categorizer.Sql.Preserves.{
  Preserves, Preserves-exec, Preserves-exec_checked, Preserves-raise, Preserves-pure,
  Preserves-query, Preserves-if, Preserves-bind, Preserves-write_tx,
}
use ynab_auto_categorizer.Table.{Table, find, delete}
use ynab_auto_categorizer.Mirror.Rows.{Time}
use ynab_auto_categorizer.Auth.Rows.{Auth, ClientRow, Grant}
use ynab_auto_categorizer.Auth.Storage.{in_tx}
use ynab_auto_categorizer.Auth.Clients.{
  NewClient, register_client, row_of, make_room, make_room_for, evict, enough, insert_client,
  victims, has_live_grant, live_grant, sort_from, insert_by_age,
}

module _ {A : Type 0} (p : A → Bool) where
  all-take : (n : ℕ) (xs : List A) → all p xs ≡ true → all p (take n xs) ≡ true
  all-take zero xs h = refl
  all-take (suc n) [] h = refl
  all-take (suc n) (x ∷ xs) h = ground (arith, all-take n xs)

module _ (p : String × ClientRow → Bool) where
  all-insert_by_age :
      (x : String × ClientRow) (ys : Table String ClientRow)
      → p x ≡ true
      → all p ys ≡ true
      → all p (insert_by_age x ys) ≡ true
  unfolding insert_by_age
  all-insert_by_age x [] h k = ground arith
  all-insert_by_age x (y ∷ ys) h k = ground (arith, all-insert_by_age x ys)

  all-sort_from :
      (sorted xs : Table String ClientRow)
      → all p sorted ≡ true
      → all p xs ≡ true
      → all p (sort_from sorted xs) ≡ true
  unfolding sort_from
  all-sort_from sorted [] h k = h
  all-sort_from sorted (x ∷ xs) h k =
      all-sort_from (insert_by_age x sorted) xs (all-insert_by_age x sorted (ground arith) h)
        (ground arith)

-- Who is evicted has no live grant.
victims_idle :
    (now : Time) (excess : ℕ) (d : Auth)
    → all (λ i. not (has_live_grant now d i)) (victims now excess d) ≡ true
unfolding victims
victims_idle now excess d =
    all-take (λ i. not (has_live_grant now d i)) excess _
      (all-map (λ x. x.0) (λ i. not (has_live_grant now d i)) _
        ∙ all-sort_from (λ x. not (has_live_grant now d x.0)) [] _ refl
            (all-keep (λ x. not (has_live_grant now d x.0)) d.clients))

not_contained :
    (p : String → Bool) (i : String) (xs : List String)
    → all (λ j. not (p j)) xs ≡ true
    → p i ≡ true
    → contains i xs ≡ false
not_contained p i [] h k = refl
not_contained p i (x ∷ xs) h k = ground (arith, string_eq.beq_iff x i, not_contained p i xs)

-- The grants of a client in one table.
abbrev pub own : String → Table String Grant → Table String Grant
own i t = keep (λ x. x.1.client_id == i) t

module _ (i : String) (gone : List String) where
  find_spared :
      (t : Table String ClientRow)
      → contains i gone ≡ false
      → find i (delete (λ k c. contains k gone) t) ≡ find i t
  unfolding find delete
  find_spared [] h = refl
  find_spared ((k, c) ∷ t) h = ground (arith, string_eq.beq_iff k i, find_spared t)

  own_spared :
      (t : Table String Grant)
      → contains i gone ≡ false
      → own i (delete (λ k g. contains g.client_id gone) t) ≡ own i t
  unfolding delete
  own_spared [] h = refl
  own_spared ((k, g) ∷ t) h = ground (arith, string_eq.beq_iff g.client_id i, own_spared t)

any-own :
    (i : String) (q : Grant → Bool) (t : Table String Grant)
    → any (λ x. x.1.client_id == i && q x.1) t ≡ any (λ x. x.1.client_id == i && q x.1) (own i t)
any-own i q [] = refl
any-own i q ((k, g) ∷ t) = ground (arith, any-own i q t)

-- A client and all its grants.
abbrev pub Holding : Type 0
Holding =
    Option ClientRow
    × Table String Grant
    × Table String Grant
    × Table String Grant
    × Table String Grant

abbrev pub holding : String → Auth → Holding
holding i d = (find i d.clients, own i d.codes, own i d.access, own i d.refresh, own i d.pkce)

abbrev live_held : Time → String → Holding → Bool
live_held now i (c, codes, access, refresh, pkce) =
    any (λ x. x.1.client_id == i && (x.1.active && ltb now x.1.expires_at)) codes
    || any (λ x. x.1.client_id == i && ltb now x.1.expires_at) access
    || any (λ x. x.1.client_id == i && (x.1.active && ltb now x.1.expires_at)) refresh

live_grant_lem :
    (now : Time) (i : String) (t : Table String Grant)
    → any (live_grant now i) t
      ≡ any (λ x. x.1.client_id == i && (x.1.active && ltb now x.1.expires_at)) t
live_grant_lem now i [] = refl
live_grant_lem now i ((k, g) ∷ t) = ground (arith, live_grant_lem now i t)

live_held_lem :
    (now : Time) (i : String) (d : Auth) → has_live_grant now d i ≡ live_held now i (holding i d)
unfolding has_live_grant
live_held_lem now i d =
    rw
      (
        live_grant_lem now i d.codes,
        live_grant_lem now i d.refresh,
        any-own i (λ g. g.active && ltb now g.expires_at) d.codes,
        any-own i (λ g. ltb now g.expires_at) d.access,
        any-own i (λ g. g.active && ltb now g.expires_at) d.refresh,
      )
      refl

holding-evict :
    (now : Time) (excess : ℕ) (i : String) (d : Auth)
    → has_live_grant now d i ≡ true
    → holding i (evict now excess d).1 ≡ holding i d
unfolding evict
holding-evict now excess i d h =
    let spared = not_contained (has_live_grant now d) i _ (victims_idle now excess d) h in
    rw
      (
        find_spared i _ d.clients spared,
        own_spared i _ d.codes spared,
        own_spared i _ d.access spared,
        own_spared i _ d.refresh spared,
        own_spared i _ d.pkce spared,
      )
      refl

find-append :
    (i : String) (r : ClientRow) (t u : Table String ClientRow)
    → find i t ≡ some r
    → find i (t ++ u) ≡ some r
unfolding find
find-append i r [] u h = ground arith
find-append i r ((k, c) ∷ t) u h = ground (arith, find-append i r t u)

module _ (now : Time) (i : String) (row : ClientRow) (held : Holding) where
  abbrev Held : Auth → Type 0
  Held d = holding i d ≡ held

  module _ (known : held.0 ≡ some row) (live : live_held now i held ≡ true) where
    Held-evict : (excess : ℕ) (d : Auth) → Held d → Held (evict now excess d).1
    Held-evict excess d h =
        holding-evict now excess i d (live_held_lem now i d ∙ ap (live_held now i) h ∙ live) ∙ h

    Held-insert : (j : String) (c : ClientRow) (d : Auth) → Held d → Held (insert_client j c d).1
    unfolding insert_client
    Held-insert j c d h = elim (Bool-cases (is_some (find j d.clients))) [
      | inl taken ↦ rw taken h
      | inr free ↦ rw free (
          rw (find-append i row d.clients ((j, c) ∷ []) (ap (λ x. x.0) h ∙ known))
            (rw⁻¹ (ap (λ x. x.0) h ∙ known) h))
    ]

    Preserves-room : Preserves Held (make_room now)
    unfolding make_room make_room_for enough
    Preserves-room = Preserves-bind Held _ _ (Preserves-query Held _) (λ count.
        Preserves-if Held _ _ _ (Preserves-pure Held _) (
          Preserves-bind Held _ _ (Preserves-exec Held _ (Held-evict _))
            (λ n. Preserves-if Held _ _ _ (Preserves-raise Held _) (Preserves-pure Held _))))

    Preserves-register_client :
        (c : NewClient) (name : String) → Preserves Held (register_client false now c name)
    unfolding register_client in_tx
    Preserves-register_client c name = Preserves-if Held (c.id == "") _ _ (Preserves-raise Held _) (
        Preserves-if Held _ _ _ (Preserves-raise Held _) (
          Preserves-write_tx Held _ _ (
            Preserves-bind Held _ _ Preserves-room
              (λ _. Preserves-exec_checked Held _ (Held-insert c.id (row_of c name now))))))

-- A registration never takes a client in use away. Under any faults and whether it succeeds or not,
-- a client that holds an active unexpired code or refresh token, or an unexpired access token, is
-- still registered after CreateClient, with the same row, and has exactly the codes, tokens and PKCE
-- sessions that it had.
pub live_client_stays :
    (now : Time) (i : String) (row : ClientRow) (c : NewClient) (name : String) (σ : Session Auth)
    → find i σ.db.clients ≡ some row
    → has_live_grant now σ.db i ≡ true
    → holding i (register_client false now c name σ).1.db ≡ holding i σ.db
live_client_stays now i row c name σ known live =
    (Preserves-register_client now i row (holding i σ.db) known
        (sym (live_held_lem now i σ.db) ∙ live) c name).held
      σ refl
