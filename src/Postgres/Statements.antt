-- ===== src/Postgres/Statements.antt =====
-- Whole statements: the parameters they refer to against the arguments bound.
use Prim.Native.String.{String}
use den.Base.{
  ℕ, ◌+◌, suc, ◌≡◌, refl, ◌∙◌, subst, Bool, true, false, Option, none, some, List, [], ◌∷◌, arith,
  inl, inr, Bool-cases, length, length-append, if◌then◌else◌,
}
use den.Base.Int.{ℤ, is_positive}
use den.Base.Text.{◌<>◌, join, is_empty, count_char}
use den.Where.{GoTypes}
use den.Backend.{
  SortDirection, asc, desc, SortEntry, LockMode, lock_default, lock_skip_locked, lock_no_wait,
  Query,
}
use den.Postgres.{PgText, Arg, jsonb_path, build_where_clauses}
use den.Postgres.Query.{
  quote_ident, sort_dir_sql, lock_text, where_text, sort_terms, order_text, add_cursor,
  append_cursor_clauses, limit_text, build_select_sql, build_count_sql, build_exists_sql,
}
use den.Postgres.Numbers.{
  dollars, dollars-append, jsonb_path-dollars, Numbered, plain, one, append, AllNumbered,
  join-Numbered, append-AllNumbered,
}
use den.Postgres.Numbered.{AreNumbered, build_where_clauses-AreNumbered}

pub sort_dir_sql-dollars : (d : SortDirection) → dollars (sort_dir_sql d) ≡ 0
unfolding sort_dir_sql count_char
sort_dir_sql-dollars asc = refl
sort_dir_sql-dollars desc = refl

lock_text-dollars : (l : Option LockMode) → dollars (lock_text l) ≡ 0
unfolding lock_text count_char
lock_text-dollars none = refl
lock_text-dollars (some lock_default) = refl
lock_text-dollars (some lock_skip_locked) = refl
lock_text-dollars (some lock_no_wait) = refl

sort_terms-dollars : (ss : List SortEntry) → dollars (join ", " (sort_terms ss)) ≡ 0
unfolding sort_terms join count_char
sort_terms-dollars [] = refl
sort_terms-dollars (s ∷ []) =
    rw (dollars-append (jsonb_path s.field), jsonb_path-dollars, sort_dir_sql-dollars s.dir)
sort_terms-dollars (s ∷ t ∷ ss) = rw (
  dollars-append (jsonb_path s.field <> sort_dir_sql s.dir),
  dollars-append (jsonb_path s.field),
  dollars-append ", ",
  jsonb_path-dollars,
  sort_dir_sql-dollars s.dir,
  sort_terms-dollars (t ∷ ss),
)

pub order_text-dollars :
    (ts : List String) (l : Option LockMode)
    → dollars (join ", " ts) ≡ 0
    → dollars (order_text ts l) ≡ 0
unfolding order_text count_char
order_text-dollars [] none h = refl
order_text-dollars [] (some mode) h = refl
order_text-dollars (t ∷ ts) l h = rw (dollars-append " ORDER BY ", h)

if-dollars : (b : Bool) (s : String) → dollars s ≡ 0 → dollars (if b then s else "") ≡ 0
unfolding count_char
if-dollars true s h = h
if-dollars false s h = refl

module _ {G : GoTypes} (go : PgText G) where
  -- `%d` prints digits and a sign.
  abbrev pub PrintsNoDollar : Type 0
  PrintsNoDollar = (n : ℤ) → dollars (go.show_int n) ≡ 0

  pub limit_text-dollars : (q : Query G) → PrintsNoDollar → dollars (limit_text go q) ≡ 0
  unfolding limit_text count_char
  limit_text-dollars q h =
      dollars-append (if is_positive q.limit_n then " LIMIT " <> go.show_int q.limit_n else "") _
      ∙ (rw (
        if-dollars (is_positive q.limit_n) (" LIMIT " <> go.show_int q.limit_n)
            (rw (dollars-append " LIMIT ", h q.limit_n)),
        if-dollars (is_positive q.skip_n) (" OFFSET " <> go.show_int q.skip_n)
            (rw (dollars-append " OFFSET ", h q.skip_n)),
      ))

  where_text-Numbered :
      (n : ℕ) (clauses : List String) (m : ℕ)
      → AllNumbered go n clauses m
      → Numbered go n (where_text clauses) m
  unfolding where_text count_char
  where_text-Numbered n [] m e = subst (λ (i : ℕ). Numbered go n "" i) e (plain "" refl)
  where_text-Numbered n (c ∷ cs) m d =
      append (plain " WHERE " refl) (join-Numbered go " AND " n (c ∷ cs) m refl d)

  add_cursor-AreNumbered :
      (text id : String) (r : List String × List (Arg G) × ℕ)
      → dollars text ≡ 0
      → AreNumbered go 1 r
      → AreNumbered go 1 (add_cursor go text id r)
  unfolding add_cursor
  add_cursor-AreNumbered text id (clauses, args, n) h (d, e) = elim (Bool-cases (is_empty id)) [
    | inl blank ↦ rw blank (d, e)
    | inr given ↦
        rw (given, length-append args)
          (
            append-AllNumbered go 1 clauses _ n (n + 1) d
                (suc n, append (plain text h) one, omega arith),
            omega (arith, e),
          )
  ]

  append_cursor_clauses-AreNumbered :
      (q : Query G)
      → AreNumbered go 1 (append_cursor_clauses go (build_where_clauses go q.conditions) q)
  unfolding append_cursor_clauses count_char
  append_cursor_clauses-AreNumbered q = add_cursor-AreNumbered "id < " q.before_id _ refl (
      add_cursor-AreNumbered "id > " q.after_id _ refl
        (build_where_clauses-AreNumbered go q.conditions))

  tail-dollars :
      (q : Query G)
      → PrintsNoDollar
      → dollars
          (order_text (sort_terms q.sort_fields) q.lock <> (limit_text go q <> lock_text q.lock))
        ≡ 0
  tail-dollars q h =
      dollars-append (order_text (sort_terms q.sort_fields) q.lock) _
      ∙ (rw (
        dollars-append (limit_text go q),
        order_text-dollars (sort_terms q.sort_fields) q.lock (sort_terms-dollars q.sort_fields),
        limit_text-dollars q h,
        lock_text-dollars q.lock,
      ))

  -- A statement refers to the parameters 1, 2, … in order, as many as it binds.
  abbrev pub BindsInOrder : String × List (Arg G) → Type 0
  BindsInOrder (text, args) = Numbered go 1 text (1 + length args)

  pub where_of :
      (q : Query G)
      → let found = append_cursor_clauses go (build_where_clauses go q.conditions) q in
        Numbered go 1 (where_text found.0) (1 + length found.1)
  where_of q =
      let found = append_cursor_clauses go (build_where_clauses go q.conditions) q in
      let (d, e) = append_cursor_clauses-AreNumbered q in
      subst (λ (i : ℕ). Numbered go 1 (where_text found.0) i) e (where_text-Numbered 1 _ _ d)

  -- The SELECT, COUNT and EXISTS statements of a query refer to `$1`, `$2` and so on from left to
  -- right, each once and as many as there are arguments, the cursors' included, when the quoted
  -- table name holds no `$` and integers print without one.
  pub statements-BindsInOrder :
      (collection : String) (q : Query G)
      → PrintsNoDollar
      → dollars (quote_ident collection) ≡ 0
      → BindsInOrder (build_select_sql go collection q)
        × BindsInOrder (build_count_sql go collection q)
        × BindsInOrder (build_exists_sql go collection q)
  unfolding build_select_sql build_count_sql build_exists_sql count_char
  statements-BindsInOrder collection q h k = (
    append (plain "SELECT id, data::text FROM " refl)
        (append (plain _ k) (append (where_of q) (plain _ (tail-dollars q h)))),
    append (plain "SELECT COUNT(*) FROM " refl) (append (plain _ k) (where_of q)),
    append (plain "SELECT EXISTS(" refl) (
        append
          (append (plain "SELECT 1 FROM " refl)
            (append (plain _ k) (append (where_of q) (plain " LIMIT 1" refl))))
          (plain ")" refl)),
  )
