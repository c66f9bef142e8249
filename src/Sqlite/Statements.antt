-- ===== src/Sqlite/Statements.antt =====
-- Whole statements: as many placeholders as arguments.
use native.Mathlib.Nat.{zero-add, add-zero}
use Prim.Native.String.{String}
use den.Base.{
  ◌+◌, ◌≡◌, refl, Bool, true, false, List, [], ◌∷◌, ◌++◌, arith, inl, inr, Bool-cases, length,
  length-append, if◌then◌else◌,
}
use den.Base.Int.{ℤ, is_positive, is_zero}
use den.Base.Text.{is_empty, count_char}
use den.Where.{GoTypes, Value}
use den.Backend.{SortDirection, asc, desc, SortEntry, Query}
use den.Sqlite.{GoText, build_where_clauses}
use den.Sqlite.Query.{
  sort_dir_sql, where_text, add_cursor, append_cursor_clauses, sort_terms, order_text, limit_text,
  build_select_sql, build_count_sql, build_exists_sql,
}
use den.Sqlite.Marks.{
  marks, marks-append, json_path-marks, total_marks, join-total_marks, AreBalanced,
  build_where_clauses-AreBalanced,
}

total_marks-append :
    (ss ts : List String) → total_marks (ss ++ ts) ≡ total_marks ss + total_marks ts
unfolding total_marks
total_marks-append [] ts = omega arith
total_marks-append (s ∷ ss) ts = omega (arith, total_marks-append ss ts)

pub where_text-marks : (clauses : List String) → marks (where_text clauses) ≡ total_marks clauses
unfolding where_text count_char total_marks
where_text-marks [] = refl
where_text-marks (c ∷ cs) =
    rw (marks-append " WHERE ", join-total_marks " AND " (c ∷ cs) refl) (omega arith)

pub sort_dir_sql-marks : (d : SortDirection) → marks (sort_dir_sql d) ≡ 0
unfolding sort_dir_sql count_char
sort_dir_sql-marks asc = refl
sort_dir_sql-marks desc = refl

if-marks : (b : Bool) (s : String) → marks s ≡ 0 → marks (if b then s else "") ≡ 0
unfolding count_char
if-marks true s h = h
if-marks false s h = refl

module _ {G : GoTypes} (go : GoText G) where
  -- `%d` prints digits and a sign.
  abbrev pub PrintsNoMark : Type 0
  PrintsNoMark = (n : ℤ) → marks (go.show_int n) ≡ 0

  add_cursor-AreBalanced :
      (text id : String) (r : List String × List (Value G))
      → marks text ≡ 1
      → AreBalanced go r
      → AreBalanced go (add_cursor go text id r)
  unfolding add_cursor total_marks
  add_cursor-AreBalanced text id (clauses, args) h k = elim (Bool-cases (is_empty id)) [
    | inl blank ↦ rw blank k
    | inr given ↦ rw (given, total_marks-append clauses, length-append args, h, k) (omega arith)
  ]

  pub append_cursor_clauses-AreBalanced :
      (q : Query G)
      → AreBalanced go (append_cursor_clauses go (build_where_clauses go q.conditions) q)
  unfolding append_cursor_clauses count_char
  append_cursor_clauses-AreBalanced q = add_cursor-AreBalanced "id < ?" q.before_id _ refl (
      add_cursor-AreBalanced "id > ?" q.after_id _ refl
        (build_where_clauses-AreBalanced go q.conditions))

  sort_terms-marks : (ss : List SortEntry) → total_marks (sort_terms go ss) ≡ 0
  unfolding sort_terms total_marks
  sort_terms-marks [] = refl
  sort_terms-marks (s ∷ ss) =
      rw (marks-append, json_path-marks, sort_dir_sql-marks s.dir, sort_terms-marks ss)

  pub order_text-marks : (ts : List String) → marks (order_text go ts) ≡ total_marks ts
  unfolding order_text count_char total_marks
  order_text-marks [] = refl
  order_text-marks (t ∷ ts) =
      rw (marks-append " ORDER BY ", join-total_marks ", " (t ∷ ts) refl) (omega arith)

  pub limit_text-marks : (q : Query G) → PrintsNoMark → marks (limit_text go q) ≡ 0
  unfolding limit_text count_char
  limit_text-marks q h = simp (
    marks-append,
    if-marks (is_positive q.limit_n),
    if-marks (is_positive q.skip_n),
    if-marks (is_zero q.limit_n),
    h,
  )

  -- The SELECT, COUNT and EXISTS statements of a query have one placeholder for each argument bound,
  -- the cursors' included, when the quoted table name holds no `?` and integers print without one.
  pub statements-balanced :
      (collection : String) (q : Query G)
      → PrintsNoMark
      → marks (go.quote collection) ≡ 0
      → (marks (build_select_sql go collection q).0 ≡ length (build_select_sql go collection q).1)
        × (marks (build_count_sql go collection q).0 ≡ length (build_count_sql go collection q).1)
        × (marks (build_exists_sql go collection q).0 ≡ length (build_exists_sql go collection q).1)
  unfolding build_select_sql build_count_sql build_exists_sql count_char
  statements-balanced collection q h k =
      let b = append_cursor_clauses-AreBalanced q in
      (
        simp
            (
              marks-append,
              k,
              where_text-marks,
              order_text-marks,
              sort_terms-marks,
              limit_text-marks q h,
              add-zero,
              zero-add,
            )
            b,
        simp (marks-append, k, where_text-marks, add-zero, zero-add) b,
        simp (marks-append, k, where_text-marks, add-zero, zero-add) b,
      )
