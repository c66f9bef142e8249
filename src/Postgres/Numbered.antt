-- ===== src/Postgres/Numbered.antt =====
-- The numbers of the placeholders against the arguments bound.
use Prim.Native.String.{String}
use den.Base.{
  ℕ, ◌+◌, ◌≡◌, refl, sym, ◌∙◌, ap, subst, List, [], ◌∷◌, arith, inl, inr, Bool-cases, length,
  length-append, length-map,
}
use den.Base.Text.{◌<>◌, join, is_empty, count_char}
use den.Where.{
  GoTypes, Value, field_ref, Operator, LogicType, logic_and, logic_or, Condition, Conditions,
  field_condition, logical_condition, not_condition, absent, none_left, and_then,
}
use den.Postgres.{
  PgText, Arg, bare, Clause, jsonb_path, jsonb_path_text, field_ref_to_sql, param, params,
  one_param, jsonb_params, eq_to_sql, can_rewrite_eq_to_containment, operator_to_sql, value_to_sql,
  field_condition_to_sql, next_number, add_clause, logic_separator, logical_to_sql, not_to_sql,
  condition_to_sql, conditions_to_sql, where_clauses, build_where_clauses,
}
use den.Postgres.Numbers.{
  dollars, dollars-append, jsonb_path-dollars, jsonb_path_text-dollars, Numbered, plain, one,
  append, wrap, AllNumbered, join-Numbered, params-AllNumbered,
}

module _ {G : GoTypes} (go : PgText G) where
  -- A clause built from `n` on: its text refers to the parameters from `n` in order, and there are
  -- as many of them as arguments.
  abbrev pub IsNumbered : ℕ → Clause G → Type 0
  IsNumbered n (text, args, next) = Numbered go n text next × (next ≡ n + length args)

  one_param-IsNumbered :
      (before after : String) (arg : Arg G) (n : ℕ)
      → dollars before ≡ 0
      → dollars after ≡ 0
      → IsNumbered n (one_param go before after arg n)
  unfolding one_param
  one_param-IsNumbered before after arg n h k = (
    subst (λ (i : ℕ). Numbered go n (before <> (param go n <> after)) i) (omega arith)
        (wrap go before after h k one),
    refl,
  )

  jsonb_op :
      (f op after : String) (arg : Arg G) (n : ℕ)
      → dollars op ≡ 0
      → dollars after ≡ 0
      → IsNumbered n (one_param go (jsonb_path f <> op) after arg n)
  jsonb_op f op after arg n h k =
      one_param-IsNumbered (jsonb_path f <> op) after arg n
        (dollars-append (jsonb_path f) op ∙ (rw (jsonb_path-dollars f, h))) k

  text_op :
      (f op after : String) (arg : Arg G) (n : ℕ)
      → dollars op ≡ 0
      → dollars after ≡ 0
      → IsNumbered n (one_param go (jsonb_path_text f <> op) after arg n)
  text_op f op after arg n h k =
      one_param-IsNumbered (jsonb_path_text f <> op) after arg n
        (dollars-append (jsonb_path_text f) op ∙ (rw (jsonb_path_text-dollars f, h))) k

  list_op :
      (f op : String) (vs : List (Value G)) (n : ℕ)
      → dollars op ≡ 0
      → IsNumbered n (
        jsonb_path f <> (op <> (join ", " (params go "" "::jsonb" n vs) <> ")")),
        jsonb_params go vs,
        n + length vs,
      )
  unfolding jsonb_params count_char
  list_op f op vs n h = (
    append (plain (jsonb_path f) (jsonb_path-dollars f)) (
        wrap go op ")" h refl
          (join-Numbered go ", " n _ _ refl (params-AllNumbered go "" "::jsonb" n vs refl refl))),
    ap (λ (i : ℕ). n + i) (sym (length-map _ vs)),
  )

  each_op :
      (sep f : String) (vs : List (Value G)) (n : ℕ)
      → dollars sep ≡ 0
      → Numbered go n
          (join sep (params go (jsonb_path f <> " @> to_jsonb(") "::text)" n vs))
          (n + length vs)
  unfolding count_char
  each_op sep f vs n h = join-Numbered go sep n _ _ h (
      params-AllNumbered go (jsonb_path f <> " @> to_jsonb(") "::text)" n vs
        (dollars-append (jsonb_path f) " @> to_jsonb(" ∙ (rw (jsonb_path-dollars f))) refl)

  nothing_bound : (n : ℕ) (s : String) → dollars s ≡ 0 → IsNumbered n (s, [], n)
  nothing_bound n s h = (plain s h, omega arith)

  eq_to_sql-IsNumbered : (f : String) (v : Value G) (n : ℕ) → IsNumbered n (eq_to_sql go f v n)
  unfolding eq_to_sql count_char
  eq_to_sql-IsNumbered f v n = elim (Bool-cases (can_rewrite_eq_to_containment f v)) [
    | inl simple ↦ rw simple (one_param-IsNumbered "data @> " "::jsonb" _ n refl refl)
    | inr other ↦ rw other (jsonb_op f " = " "::jsonb" _ n refl refl)
  ]

  operator_to_sql-IsNumbered :
      (f : String) (op : Operator) (v : Value G) (vs : List (Value G)) (n : ℕ)
      → IsNumbered n (operator_to_sql go f op v vs n)
  unfolding operator_to_sql count_char
  operator_to_sql-IsNumbered f Operator.op_eq v vs n = eq_to_sql-IsNumbered f v n
  operator_to_sql-IsNumbered f Operator.op_ne v vs n =
      jsonb_op f " != " "::jsonb" (bare v) n refl refl
  operator_to_sql-IsNumbered f Operator.op_gt v vs n =
      jsonb_op f " > " "::jsonb" (bare v) n refl refl
  operator_to_sql-IsNumbered f Operator.op_gte v vs n =
      jsonb_op f " >= " "::jsonb" (bare v) n refl refl
  operator_to_sql-IsNumbered f Operator.op_lt v vs n =
      jsonb_op f " < " "::jsonb" (bare v) n refl refl
  operator_to_sql-IsNumbered f Operator.op_lte v vs n =
      jsonb_op f " <= " "::jsonb" (bare v) n refl refl
  operator_to_sql-IsNumbered f Operator.op_is_nil v vs n =
      nothing_bound n _ (dollars-append (jsonb_path_text f) _ ∙ (rw (jsonb_path_text-dollars f)))
  operator_to_sql-IsNumbered f Operator.op_is_not_nil v vs n =
      nothing_bound n _ (dollars-append (jsonb_path_text f) _ ∙ (rw (jsonb_path_text-dollars f)))
  operator_to_sql-IsNumbered f Operator.op_in v vs n = list_op f " IN (" vs n refl
  operator_to_sql-IsNumbered f Operator.op_not_in v vs n = list_op f " NOT IN (" vs n refl
  operator_to_sql-IsNumbered f Operator.op_contains v vs n =
      jsonb_op f " @> to_jsonb(" "::text)" (bare v) n refl refl
  operator_to_sql-IsNumbered f Operator.op_contains_any v vs n = (
    wrap go "(" ")" refl refl (each_op " OR " f vs n refl),
    ap (λ (i : ℕ). n + i) (sym (length-map _ vs)),
  )
  operator_to_sql-IsNumbered f Operator.op_contains_all v vs n =
      (each_op " AND " f vs n refl, ap (λ (i : ℕ). n + i) (sym (length-map _ vs)))
  operator_to_sql-IsNumbered f Operator.op_has_key v vs n =
      one_param-IsNumbered _ ")" (bare v) n
        (dollars-append "jsonb_exists(" _
          ∙ (rw (dollars-append (jsonb_path f), jsonb_path-dollars f)))
        refl
  operator_to_sql-IsNumbered f Operator.op_reg_exp v vs n = text_op f " ~ " "" (bare v) n refl refl
  operator_to_sql-IsNumbered f Operator.op_starts_with v vs n =
      text_op f " LIKE " " ESCAPE '\\'" (bare v) n refl refl
  operator_to_sql-IsNumbered f Operator.op_ends_with v vs n =
      text_op f " LIKE " " ESCAPE '\\'" (bare v) n refl refl
  operator_to_sql-IsNumbered f Operator.op_string_contains v vs n =
      text_op f " LIKE " " ESCAPE '\\'" (bare v) n refl refl

  between : (f g op : String) → dollars op ≡ 0 → dollars (jsonb_path f <> (op <> jsonb_path g)) ≡ 0
  between f g op h = rw (
    dollars-append (jsonb_path f),
    dollars-append op,
    jsonb_path-dollars f,
    jsonb_path-dollars g,
    h,
  )

  field_ref_to_sql-dollars :
      (f g : String) (op : Operator)
      → dollars (field_ref_to_sql (jsonb_path f) (jsonb_path g) op) ≡ 0
  unfolding field_ref_to_sql count_char
  field_ref_to_sql-dollars f g Operator.op_eq = between f g " = " refl
  field_ref_to_sql-dollars f g Operator.op_ne = between f g " != " refl
  field_ref_to_sql-dollars f g Operator.op_gt = between f g " > " refl
  field_ref_to_sql-dollars f g Operator.op_gte = between f g " >= " refl
  field_ref_to_sql-dollars f g Operator.op_lt = between f g " < " refl
  field_ref_to_sql-dollars f g Operator.op_lte = between f g " <= " refl
  field_ref_to_sql-dollars f g _ = refl

  value_to_sql-IsNumbered :
      (f : String) (op : Operator) (v : Value G) (vs : List (Value G)) (n : ℕ)
      → IsNumbered n (value_to_sql go f op v vs n)
  unfolding value_to_sql
  value_to_sql-IsNumbered f op (field_ref g) vs n =
      nothing_bound n _ (field_ref_to_sql-dollars f g op)
  value_to_sql-IsNumbered f op v vs n = operator_to_sql-IsNumbered f op v vs n

  -- What the loops collect from `n` on.
  abbrev pub AreNumbered : ℕ → List String × List (Arg G) × ℕ → Type 0
  AreNumbered n (clauses, args, last) = AllNumbered go n clauses last × (last ≡ n + length args)

  add_clause-AreNumbered :
      (n : ℕ) (c : Clause G) (r : List String × List (Arg G) × ℕ)
      → IsNumbered n c
      → AreNumbered (next_number go c n) r
      → AreNumbered n (add_clause go c r)
  unfolding add_clause next_number count_char
  add_clause-AreNumbered n (text, args, next) (clauses, rest, last) h k =
      elim (Bool-cases (is_empty text)) [
        | inl blank ↦ rw blank (rw blank at k)
        | inr filled ↦
            let later : AreNumbered next (clauses, rest, last) = rw filled at k in
            rw (filled, length-append args rest)
              ((next, wrap go "(" ")" refl refl h.0, later.0), omega (arith, h.1, later.1))
      ]

  separator-dollars : (logic : LogicType) → dollars (logic_separator go logic) ≡ 0
  unfolding logic_separator count_char
  separator-dollars logic_and = refl
  separator-dollars logic_or = refl

  logical_to_sql-IsNumbered :
      (n : ℕ) (logic : LogicType) (r : List String × List (Arg G) × ℕ)
      → AreNumbered n r
      → IsNumbered n (logical_to_sql go logic r)
  unfolding logical_to_sql count_char
  logical_to_sql-IsNumbered n logic ([], args, last) h =
      (subst (λ (i : ℕ). Numbered go n "" i) h.0 (plain "" refl), omega (arith, h.0))
  logical_to_sql-IsNumbered n logic (c ∷ cs, args, last) h = (
    join-Numbered go (logic_separator go logic) n (c ∷ cs) last (separator-dollars logic) h.0,
    h.1,
  )

  not_to_sql-IsNumbered : (n : ℕ) (c : Clause G) → IsNumbered n c → IsNumbered n (not_to_sql go c n)
  unfolding not_to_sql count_char
  not_to_sql-IsNumbered n (text, args, next) h = elim (Bool-cases (is_empty text)) [
    | inl blank ↦ rw blank (nothing_bound n "" refl)
    | inr filled ↦ rw filled (wrap go "NOT (" ")" refl refl h.0, h.1)
  ]

  mutual
    unfolding condition_to_sql conditions_to_sql field_condition_to_sql count_char

    condition-IsNumbered : (c : Condition G) (n : ℕ) → IsNumbered n (condition_to_sql go c n)
    condition-IsNumbered (field_condition c) n =
        value_to_sql-IsNumbered c.field c.op c.value c.values n
    condition-IsNumbered (logical_condition logic cs) n =
        logical_to_sql-IsNumbered n logic (conditions_to_sql go cs n) (conditions-AreNumbered cs n)
    condition-IsNumbered (not_condition c) n =
        not_to_sql-IsNumbered n (condition_to_sql go c n) (condition-IsNumbered c n)
    condition-IsNumbered absent n = nothing_bound n "" refl

    conditions-AreNumbered : (cs : Conditions G) (n : ℕ) → AreNumbered n (conditions_to_sql go cs n)
    conditions-AreNumbered none_left n = (refl, omega arith)
    conditions-AreNumbered (and_then c cs) n =
        add_clause-AreNumbered n (condition_to_sql go c n) _ (condition-IsNumbered c n)
          (conditions-AreNumbered cs (next_number go (condition_to_sql go c n) n))

  where_clauses-AreNumbered :
      (cs : List (Condition G)) (n : ℕ) → AreNumbered n (where_clauses go cs n)
  unfolding where_clauses
  where_clauses-AreNumbered [] n = (refl, omega arith)
  where_clauses-AreNumbered (c ∷ cs) n =
      add_clause-AreNumbered n (condition_to_sql go c n) _ (condition-IsNumbered c n)
        (where_clauses-AreNumbered cs (next_number go (condition_to_sql go c n) n))

  pub build_where_clauses-AreNumbered :
      (cs : List (Condition G)) → AreNumbered 1 (build_where_clauses go cs)
  unfolding build_where_clauses
  build_where_clauses-AreNumbered cs = where_clauses-AreNumbered cs 1
