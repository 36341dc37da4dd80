-- ===== src/Auth/Steps/Spent.antt =====
-- auth/storage.go, InvalidateAuthorizeCodeSession and RotateRefreshToken: a code or refresh token
-- that was used once stays used, whatever happens later.
use ynab_auto_categorizer.Prelude.{
  ℕ, String, Bool, true, false, not, ◌&&◌, ◌||◌, ◌≡◌, refl, inl, inr, [], ◌∷◌, arith, Bool-cases,
  if◌then◌else◌, ◌==◌, string_eq, is_some, all, keep, length, all-keep_of_all, contains,
}
use ynab_auto_categorizer.Table.{Table, find, delete}
use ynab_auto_categorizer.Mirror.Rows.{Time}
use ynab_auto_categorizer.Auth.Rows.{Auth, Grant, Kind, with_table, table}
use ynab_auto_categorizer.Auth.Storage.{insert_grant, retire, retired, retire_rows}
use ynab_auto_categorizer.Auth.Clients.{evict, victims}
use ynab_auto_categorizer.Auth.Steps.{Op}

abbrev pub same_kind : Kind → Kind → Bool
same_kind Kind.codes Kind.codes = true
same_kind Kind.access Kind.access = true
same_kind Kind.refresh Kind.refresh = true
same_kind Kind.pkce Kind.pkce = true
same_kind k l = false

-- Every operation but the creation of a session of this kind under this signature.
abbrev pub creates_other : Kind → String → Op → Bool
creates_other kind signature op = elim op [
  | Op.create_session k token sig req ↦ not (same_kind kind k && sig == signature)
  | other ↦ true
]

same_kind_refl : (k : Kind) → same_kind k k ≡ true
same_kind_refl Kind.codes = refl
same_kind_refl Kind.access = refl
same_kind_refl Kind.refresh = refl
same_kind_refl Kind.pkce = refl

-- What a change of one table makes of every table.
table-with_table :
    (F : Table String Grant → Table String Grant) (k l : Kind) (d : Auth)
    → table k (with_table l (F (table l d)) d)
      ≡ (if same_kind k l then F (table k d) else table k d)
unfolding table with_table
table-with_table F Kind.codes Kind.codes d = refl
table-with_table F Kind.codes Kind.access d = refl
table-with_table F Kind.codes Kind.refresh d = refl
table-with_table F Kind.codes Kind.pkce d = refl
table-with_table F Kind.access Kind.codes d = refl
table-with_table F Kind.access Kind.access d = refl
table-with_table F Kind.access Kind.refresh d = refl
table-with_table F Kind.access Kind.pkce d = refl
table-with_table F Kind.refresh Kind.codes d = refl
table-with_table F Kind.refresh Kind.access d = refl
table-with_table F Kind.refresh Kind.refresh d = refl
table-with_table F Kind.refresh Kind.pkce d = refl
table-with_table F Kind.pkce Kind.codes d = refl
table-with_table F Kind.pkce Kind.access d = refl
table-with_table F Kind.pkce Kind.refresh d = refl
table-with_table F Kind.pkce Kind.pkce d = refl

-- A test that only active rows under one key can pass.
pub record Picks (signature : String) (p : String → Grant → Bool) : Type 0 where
  pub key : (k : String) (g : Grant) → p k g ≡ true → (k == signature) ≡ true
  pub live : (k : String) (g : Grant) → p k g ≡ true → g.active ≡ true

abbrev fails : (String → Grant → Bool) → String × Grant → Bool
fails p x = not (p x.0 x.1)

module _ (kind : Kind) (signature : String) (p : String → Grant → Bool)
    (h : Picks signature p) where
  -- No row passes the test.
  abbrev pub Spent : Auth → Type 0
  Spent d = all (fails p) (table kind d) ≡ true

  pub Spent-change :
      (F : Table String Grant → Table String Grant) (l : Kind) (d : Auth)
      → (all (fails p) (table kind d) ≡ true → all (fails p) (F (table kind d)) ≡ true)
      → Spent d
      → Spent (with_table l (F (table l d)) d)
  Spent-change F l d f s = elim (Bool-cases (same_kind kind l)) [
    | inl same ↦ rw (table-with_table F kind l d, same) (f s)
    | inr apart ↦ rw (table-with_table F kind l d, apart) s
  ]

  spent-delete :
      (q : String → Grant → Bool) (t : Table String Grant)
      → all (fails p) t ≡ true
      → all (fails p) (delete q t) ≡ true
  unfolding delete
  spent-delete q t s = all-keep_of_all (fails q) (fails p) t s

  spent-retired :
      (q : String → Grant → Bool) (t : Table String Grant)
      → all (fails p) t ≡ true
      → all (fails p) (retire_rows q t) ≡ true
  spent-retired q [] s = refl
  spent-retired q ((k, g) ∷ t) s = ground (arith, spent-retired q t, h.live k (retired g))

  pub Spent-retire :
      (l : Kind) (q : String → Grant → Bool) (d : Auth) → Spent d → Spent (retire l q d).1
  unfolding retire
  Spent-retire l q d = Spent-change (retire_rows q) l d (spent-retired q (table kind d))

  pub Spent-insert :
      (l : Kind) (sig : String) (g : Grant) (d : Auth)
      → not (same_kind kind l && sig == signature) ≡ true
      → Spent d
      → Spent (insert_grant l sig g d).1
  unfolding insert_grant
  Spent-insert l sig g d other s =
      elim (Bool-cases
        (is_some (find sig (table l d)) || not (is_some (find g.client_id d.clients)))) [
          | inl refused ↦ rw refused s
          | inr fresh ↦
              rw (fresh, table-with_table (λ t. (sig, g) ∷ t) kind l d)
                (ground (arith, h.key sig g))
        ]

  pub Spent-delete_rows :
      (l : Kind) (q : String → Grant → Bool) (d : Auth)
      → Spent d
      → Spent (with_table l (delete q (table l d)) d)
  Spent-delete_rows l q d = Spent-change (delete q) l d (spent-delete q (table kind d))

  pub Spent-evict : (now : Time) (excess : ℕ) (d : Auth) → Spent d → Spent (evict now excess d).1
  unfolding evict table
  Spent-evict now excess d s = by_kind kind s
    where
      gone : String → Grant → Bool
      gone k g = contains g.client_id (victims now excess d)

      by_kind :
          (l : Kind)
          → all (fails p) (table l d) ≡ true
          → all (fails p) (table l (evict now excess d).1) ≡ true
      by_kind Kind.codes s = spent-delete gone d.codes s
      by_kind Kind.access s = spent-delete gone d.access s
      by_kind Kind.refresh s = spent-delete gone d.refresh s
      by_kind Kind.pkce s = spent-delete gone d.pkce s

  pub Spent-others :
      (d d' : Auth)
      → d.codes ≡ d'.codes
      → d.access ≡ d'.access
      → d.refresh ≡ d'.refresh
      → d.pkce ≡ d'.pkce
      → Spent d
      → Spent d'
  unfolding table
  Spent-others d d' a b c e s = by_kind kind s
    where
      by_kind : (l : Kind) → all (fails p) (table l d) ≡ true → all (fails p) (table l d') ≡ true
      by_kind Kind.codes s = rw⁻¹ a s
      by_kind Kind.access s = rw⁻¹ b s
      by_kind Kind.refresh s = rw⁻¹ c s
      by_kind Kind.pkce s = rw⁻¹ e s

  -- After the update of the rows that pass, none does.
  pub Spent-own : (d : Auth) → Spent (retire kind p d).1
  unfolding retire
  Spent-own d =
      rw (table-with_table (retire_rows p) kind kind d, same_kind_refl kind) (each (table kind d))
    where
      each : (t : Table String Grant) → all (fails p) (retire_rows p t) ≡ true
      each [] = refl
      each ((k, g) ∷ t) = ground (arith, each t, h.live k (retired g))

  -- and the next update finds no row.
  pub none-retire : (d : Auth) → Spent d → (retire kind p d).0 ≡ 0
  unfolding retire
  none-retire d s = each (table kind d) s
    where
      each :
          (t : Table String Grant) → all (fails p) t ≡ true → length (keep (λ x. p x.0 x.1) t) ≡ 0
      each [] s = refl
      each ((k, g) ∷ t) s = ground (arith, each t)
