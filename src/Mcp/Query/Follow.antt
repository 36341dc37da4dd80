-- ===== src/Mcp/Query/Follow.antt =====
-- mcp/tools_transactions.go: a client that follows the cursors sees every matching line once.
use ynab_auto_categorizer.Prelude.{
  ℕ, zero, suc, ◌-◌, ◌<◌, ℤ, pos, negsuc, String, Bool, true, false, ◌&&◌, ◌||◌, ◌≡◌, refl, ap, ◌∙◌,
  Option, none, some, List, [], ◌∷◌, ◌++◌, map, keep, all, all-keep_of_all, take, length, ltb, ◌==◌,
  ==-refl, string_eq, arith, if◌then◌else◌, Bool-cases, inl, inr, and_left, and_right, and_intro,
  insert_by, sort_by, apart, all_apart, ascends-sort_by, get_elem?, ok,
}
use mathlib.Core.List.{map-append}
use ynab_auto_categorizer.Sql.{Sql, Session, query}
use ynab_auto_categorizer.Sql.Calm.{Calm, Gives, Gives-query, Gives-pure, Gives-lift, Gives-bind}
use ynab_auto_categorizer.Mirror.{Mirror}
use ynab_auto_categorizer.Ledger.{Line, LineKey, key, key_before, line_before, lines}
use ynab_auto_categorizer.Ledger.Like.{Unicode}
use ynab_auto_categorizer.Ledger.Filter.{LineFilter, matches}
use ynab_auto_categorizer.Ledger.Query.{
  selected, summarize, page_rows, query_lines, Named, accounts, categories, has_name, name_matches,
}
use ynab_auto_categorizer.Ledger.Order.{key_before_trans, key_before_irrefl}
use ynab_auto_categorizer.Ledger.Paging.{keep-sort_by}
use ynab_auto_categorizer.Ledger.Paging.Walk.{
  follows, page, next_cursor, shown_lines, go_on, last_key, walk, walk_lem,
}
use ynab_auto_categorizer.Mcp.Query.{
  Cursor, absent, QueryArgs, TxLine, QueryData, tx_line, filter_of, page_size_of, check_name,
  after_of, cursor_at, answer, query_transactions, followed, follow_cursors,
}

page_size_of-pos : (n : ℤ) → 0 < page_size_of n
unfolding page_size_of
page_size_of-pos (pos zero) = omega arith
page_size_of-pos (pos (suc n)) = omega arith
page_size_of-pos (negsuc n) = omega arith

keep_and :
    {A : Type 0} (p q : A → Bool) (xs : List A) → keep (λ x. p x && q x) xs ≡ keep q (keep p xs)
keep_and p q [] = refl
keep_and p q (x ∷ xs) = ground (arith, keep_and p q xs)

all_apart-keep :
    (p : Line → Bool) (xs : List Line)
    → all_apart line_before xs ≡ true
    → all_apart line_before (keep p xs) ≡ true
all_apart-keep p [] h = refl
all_apart-keep p (x ∷ xs) h = elim (Bool-cases (p x)) [
  | inl kept ↦ rw kept (
      and_intro (all-keep_of_all p (apart line_before x) xs (and_left (all_apart line_before xs) h))
        (all_apart-keep p xs (and_right (all (apart line_before x) xs) h)))
  | inr gone ↦ rw gone (all_apart-keep p xs (and_right (all (apart line_before x) xs) h))
]

length-insert_by :
    {A : Type 0} (before : A → A → Bool) (x : A) (xs : List A)
    → length (insert_by before x xs) ≡ suc (length xs)
unfolding insert_by
length-insert_by before x [] = refl
length-insert_by before x (y ∷ ys) = ground (arith, length-insert_by before x ys)

length-sort_by :
    {A : Type 0} (before : A → A → Bool) (xs : List A) → length (sort_by before xs) ≡ length xs
unfolding sort_by
length-sort_by before [] = refl
length-sort_by before (x ∷ xs) =
    length-insert_by before x (sort_by before xs) ∙ ap suc (length-sort_by before xs)

line_trans :
    (k l n : Line) → line_before k l ≡ true → line_before l n ≡ true → line_before k n ≡ true
line_trans k l n h j = key_before_trans (key k) (key l) (key n) h j

line_irrefl : (l : Line) → line_before l l ≡ false
line_irrefl l = key_before_irrefl (key l)

module _ ⦃u : Unicode⦄ (plan : String) (hash : LineFilter → String) (m : Mirror) (f : LineFilter)
    (distinct : all_apart line_before (lines plan m) ≡ true) where
  -- All matching lines, in order.
  abbrev sorted : List Line
  sorted = sort_by line_before (selected plan f m)

  page_rows_lem :
      (after : Option LineKey) (limit : ℕ)
      → page_rows plan f after limit m ≡ page key key_before after limit sorted
  unfolding page_rows
  page_rows_lem after limit =
      ap (λ t. take limit (sort_by line_before t))
        (keep_and (matches f) (follows key key_before after) (lines plan m))
      ∙ ap (take limit) (
          keep-sort_by line_before line_trans line_irrefl (follows key key_before after)
            (selected plan f m) (all_apart-keep (matches f) (lines plan m) distinct))

  -- The names of the filter are there.
  abbrev Known : Named → String → Type 0
  Known table s = ((s == "") || has_name plan table s m) ≡ true

  Gives-check_name :
      (table : Named) (s : String) → Known table s → Gives m (check_name plan hash table s) tt
  unfolding name_matches
  Gives-check_name table s h = elim (Bool-cases (s == "")) [
    | inl empty ↦ rw empty (Gives-pure m tt)
    | inr named ↦
        let found : has_name plan table s m ≡ true = ground arith in
        rw named (
          Gives-bind m (query (has_name plan table s)) _ (has_name plan table s m) tt
            (Gives-query m (has_name plan table s)) (rw found (Gives-pure m tt)))
  ]

  module _ (a : QueryArgs) (filtered : filter_of a ≡ ok f) (account : Known accounts f.account)
      (category : Known categories f.category) where
    abbrev size : ℕ
    size = page_size_of a.page_size

    abbrev result : Option LineKey → QueryData
    result after =
        answer plan hash f size
          (page key key_before after (suc size) sorted, summarize (selected plan f m))

    filter_of-cursor : (c : Cursor) → filter_of (record a { cursor = c }) ≡ ok f
    unfolding filter_of
    filter_of-cursor c = filtered

    Gives-query_lines :
        (after : Option LineKey)
        → Gives m
            (query_lines plan f after (suc size))
            (page key key_before after (suc size) sorted, summarize (selected plan f m))
    unfolding query_lines
    Gives-query_lines after = Gives-bind m _ _ (summarize (selected plan f m)) _ (Gives-query m _) (
        Gives-bind m (query (page_rows plan f after (suc size))) _
          (page_rows plan f after (suc size) m) _ (Gives-query m _)
          (rw (page_rows_lem after (suc size)) (Gives-pure m _)))

    -- One page of the tool.
    Gives-query_transactions :
        (c : Cursor) (after : Option LineKey)
        → after_of plan hash f c ≡ ok after
        → Gives m (query_transactions plan hash (record a { cursor = c })) (result after)
    unfolding query_transactions
    Gives-query_transactions c after valid =
        Gives-bind m _ _ f _ (Gives-lift m _ f (filter_of-cursor c)) (
          Gives-bind m _ _ tt _ (Gives-check_name accounts f.account account) (
            Gives-bind m _ _ tt _ (Gives-check_name categories f.category category) (
              Gives-bind m _ _ after _ (Gives-lift m _ after valid)
                (Gives-bind m _ _ _ _ (Gives-query_lines after) (Gives-pure m _)))))

    -- The lines that are left behind a cursor.
    abbrev left_after : ℕ → Option LineKey → List TxLine
    left_after pages after = map tx_line (walk key key_before pages size after sorted)

    walk-zero : (after : Option LineKey) → walk key key_before zero size after sorted ≡ []
    unfolding walk
    walk-zero after = refl

    walk_step :
        (pages : ℕ) (after : Option LineKey)
        → walk key key_before (suc pages) size after sorted
          ≡ shown_lines key key_before size (page key key_before after (suc size) sorted)
            ++ go_on key key_before
                (next_cursor key key_before size (page key key_before after (suc size) sorted))
                (λ k. walk key key_before pages size (some k) sorted)
    unfolding walk
    walk_step pages after = refl

    abbrev next_run : ℕ → Cursor → Sql Mirror (List TxLine)
    next_run pages c = follow_cursors plan hash pages (record a { cursor = c })

    Gives-followed :
        (pages : ℕ)
        → ((k : LineKey)
            → Gives m (next_run pages (Cursor.cursor k (hash f))) (left_after pages (some k)))
        → (more : Bool) (last : Option Line)
        → Gives m
            (followed plan hash
              (if more then cursor_at plan hash f last else none)
              (next_run pages))
            (map tx_line (
              go_on key key_before
                (if more then last_key key key_before last else none)
                (λ k. walk key key_before pages size (some k) sorted)))
    Gives-followed pages h false last = Gives-pure m []
    Gives-followed pages h true none = Gives-pure m []
    Gives-followed pages h true (some l) = h (key l)

    Gives-follow_cursors :
        (pages : ℕ) (c : Cursor) (after : Option LineKey)
        → after_of plan hash f c ≡ ok after
        → Gives m (next_run pages c) (left_after pages after)
    unfolding follow_cursors
    Gives-follow_cursors zero c after valid = rw (walk-zero after) (Gives-pure m [])
    Gives-follow_cursors (suc pages) c after valid =
        let got = page key key_before after (suc size) sorted in
        rw (walk_step pages after, map-append)
          (Gives-bind m _ _ (result after) _ (Gives-query_transactions c after valid) (
            Gives-bind m _ _ _ _
              (Gives-followed pages
                (λ k. Gives-follow_cursors pages (Cursor.cursor k (hash f)) (some k) (own_hash k))
                (ltb size (length got)) (get_elem? got (size - 1)))
              (Gives-pure m _)))
      where
        own_hash : (k : LineKey) → after_of plan hash f (Cursor.cursor k (hash f)) ≡ ok (some k)
        own_hash k = rw (==-refl (hash f)) refl

    -- While the driver fails nothing, for filters that are accepted and names that exist, in a mirror
    -- whose lines have different keys: a client that follows the cursors from the first page gets every
    -- matching line exactly once, in order, whatever the page size, and once it may ask for more pages
    -- than there are such lines, it gets all of them.
    pub follow_cursors_lem :
        (pages : ℕ) (s : Session Mirror)
        → s.db ≡ m
        → Calm s
        → length (selected plan f m) < pages
        → (follow_cursors plan hash pages (record a { cursor = absent }) s).0
          ≡ ok (map tx_line sorted)
    follow_cursors_lem pages s e calm lt =
        let few : length sorted < pages =
          omega (arith, length-sort_by line_before (selected plan f m)) in
        let all_lines : walk key key_before pages size none sorted ≡ sorted =
          walk_lem key key_before line_trans line_irrefl pages size sorted
            (page_size_of-pos a.page_size)
            (ascends-sort_by line_before line_trans (selected plan f m)
              (all_apart-keep (matches f) (lines plan m) distinct))
            few in
        (Gives-follow_cursors pages absent none refl).result s e calm
        ∙ ap (λ ls. ok (map tx_line ls)) all_lines
