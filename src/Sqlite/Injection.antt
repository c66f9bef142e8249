-- ===== src/Sqlite/Injection.antt =====
-- No name and no value of a condition reaches the SQL text outside the quotes.
use Prim.Native.String.{String}
use den.Base.{◌≡◌, refl, sym, ◌∙◌, false, List, [], ◌∷◌, map, inl, inr, Bool-cases}
use den.Base.Text.{◌<>◌, join, is_empty}
use den.Util.{sanitize_field_name}
use den.Where.{
  GoTypes, Value, nil, field_ref, Operator, LogicType, logic_and, logic_or, FieldCondition,
  Condition, Conditions, field_condition, logical_condition, not_condition, absent, none_left,
  and_then,
}
use den.Sqlite.{
  GoText, Clause, json_path, field_ref_to_sql, placeholders, key, operator_to_sql, value_to_sql,
  field_condition_to_sql, add_clause, logic_separator, logical_to_sql, not_to_sql, condition_to_sql,
  conditions_to_sql,
}
use den.Sqlite.Quoting.{
  outside, ends_inside, Alike, Alike-append, Alike-itself, quoted-Alike, Tail, Tail-append,
  Tail-name, json_path-Alike, contains_clause-Alike,
}

module _ {G : GoTypes} where
  -- A condition's shape: every name is made empty, every value nil, every reference one to the
  -- empty name.
  abbrev pub blanks : List (Value G) → List (Value G)
  blanks vs = map (λ _. nil) vs

  unfoldable pub erase_value : Value G → Value G
  erase_value (field_ref g) = field_ref ""
  erase_value v = nil

  unfoldable pub erase_field : FieldCondition G → FieldCondition G
  erase_field c = record {
    field = "";
    op = c.op;
    value = erase_value c.value;
    values = blanks c.values;
  }

  unfoldable mutual
    pub erase : Condition G → Condition G
    erase (field_condition c) = field_condition (erase_field c)
    erase (logical_condition logic cs) = logical_condition logic (erase_all cs)
    erase (not_condition c) = not_condition (erase c)
    erase absent = absent

    pub erase_all : Conditions G → Conditions G
    erase_all none_left = none_left
    erase_all (and_then c cs) = and_then (erase c) (erase_all cs)

  join-copies :
      (sep text text' : String) (vs : List (Value G))
      → Alike text text'
      → Alike sep sep
      → Alike (join sep (map (λ _. text) vs)) (join sep (map (λ _. text') (blanks vs)))
  unfolding join outside ends_inside is_empty
  join-copies sep text text' [] h k = Alike-itself "" refl
  join-copies sep text text' (v ∷ []) h k = h
  join-copies sep text text' (v ∷ w ∷ vs) h k =
      Alike-append _ _ _ _ h (Alike-append _ _ _ _ k (join-copies sep text text' (w ∷ vs) h k))

  placeholders-Alike : (vs : List (Value G)) → Alike (placeholders vs) (placeholders (blanks vs))
  unfolding placeholders outside ends_inside is_empty
  placeholders-Alike vs =
      join-copies ", " "?" "?" vs (Alike-itself "?" refl) (Alike-itself ", " refl)

module _ {G : GoTypes} (go : GoText G) where
  after_path :
      (f g s : String)
      → ends_inside false s ≡ false
      → Alike (json_path (sanitize_field_name f) <> s) (json_path (sanitize_field_name g) <> s)
  after_path f g s h = Alike-append _ _ s s (json_path-Alike f g) (Alike-itself s h)

  listed :
      (f g s : String) (vs : List (Value G))
      → ends_inside false s ≡ false
      → Alike
          (json_path (sanitize_field_name f) <> (s <> (placeholders vs <> ")")))
          (json_path (sanitize_field_name g) <> (s <> (placeholders (blanks vs) <> ")")))
  unfolding outside ends_inside is_empty
  listed f g s vs h = Alike-append _ _ _ _ (json_path-Alike f g) (
      Alike-append s s _ _ (Alike-itself s h)
        (Alike-append _ _ ")" ")" (placeholders-Alike vs) (Alike-itself ")" refl)))

  operator_to_sql-Alike :
      (f g : String) (op : Operator) (v w : Value G) (vs : List (Value G))
      → Alike
          (operator_to_sql go (sanitize_field_name f) op v vs).0
          (operator_to_sql go (sanitize_field_name g) op w (blanks vs)).0
  unfolding operator_to_sql ends_inside outside is_empty
  operator_to_sql-Alike f g Operator.op_in v w vs = listed f g " IN (" vs refl
  operator_to_sql-Alike f g Operator.op_not_in v w vs = listed f g " NOT IN (" vs refl
  operator_to_sql-Alike f g Operator.op_contains v w vs = contains_clause-Alike f g
  operator_to_sql-Alike f g Operator.op_contains_any v w vs =
      quoted-Alike "EXISTS (SELECT 1 FROM json_each(json_extract(data, '$." f g _ _ refl refl
        tail.closed tail.same
    where
      tail :
          Tail
            ("')) WHERE value IN (" <> (placeholders vs <> "))"))
            ("')) WHERE value IN (" <> (placeholders (blanks vs) <> "))"))
      tail =
          Tail-append "')) WHERE value IN (" _ _ refl
            (Alike-append _ _ "))" "))" (placeholders-Alike vs) (Alike-itself "))" refl))
  operator_to_sql-Alike f g Operator.op_contains_all v w vs =
      join-copies " AND " _ _ vs (contains_clause-Alike f g) (Alike-itself " AND " refl)
  operator_to_sql-Alike f g Operator.op_has_key v w vs =
      quoted-Alike "json_type(data, '$." f g _ _ refl refl tail.closed tail.same
    where
      tail :
          Tail
            ("." <> (sanitize_field_name (key v) <> "') IS NOT NULL"))
            ("." <> (sanitize_field_name (key w) <> "') IS NOT NULL"))
      tail = Tail-name "." (key v) (key w) "') IS NOT NULL" refl refl
  operator_to_sql-Alike f g _ v w vs = after_path f g _ refl

  field_ref_to_sql-Alike :
      (f g f' g' : String) (op : Operator)
      → Alike
          (field_ref_to_sql
            (json_path (sanitize_field_name f))
            (json_path (sanitize_field_name g))
            op)
          (field_ref_to_sql
            (json_path (sanitize_field_name f'))
            (json_path (sanitize_field_name g'))
            op)
  unfolding field_ref_to_sql ends_inside outside is_empty
  field_ref_to_sql-Alike f g f' g' Operator.op_eq =
      Alike-append _ _ _ _ (json_path-Alike f f')
        (Alike-append _ _ _ _ (Alike-itself " = " refl) (json_path-Alike g g'))
  field_ref_to_sql-Alike f g f' g' Operator.op_ne =
      Alike-append _ _ _ _ (json_path-Alike f f')
        (Alike-append _ _ _ _ (Alike-itself " != " refl) (json_path-Alike g g'))
  field_ref_to_sql-Alike f g f' g' Operator.op_gt =
      Alike-append _ _ _ _ (json_path-Alike f f')
        (Alike-append _ _ _ _ (Alike-itself " > " refl) (json_path-Alike g g'))
  field_ref_to_sql-Alike f g f' g' Operator.op_gte =
      Alike-append _ _ _ _ (json_path-Alike f f')
        (Alike-append _ _ _ _ (Alike-itself " >= " refl) (json_path-Alike g g'))
  field_ref_to_sql-Alike f g f' g' Operator.op_lt =
      Alike-append _ _ _ _ (json_path-Alike f f')
        (Alike-append _ _ _ _ (Alike-itself " < " refl) (json_path-Alike g g'))
  field_ref_to_sql-Alike f g f' g' Operator.op_lte =
      Alike-append _ _ _ _ (json_path-Alike f f')
        (Alike-append _ _ _ _ (Alike-itself " <= " refl) (json_path-Alike g g'))
  field_ref_to_sql-Alike f g f' g' _ = Alike-itself "" refl

  value_to_sql-Alike :
      (f g : String) (op : Operator) (v : Value G) (vs : List (Value G))
      → Alike
          (value_to_sql go (sanitize_field_name f) op v vs).0
          (value_to_sql go (sanitize_field_name g) op (erase_value v) (blanks vs)).0
  unfolding value_to_sql erase_value
  value_to_sql-Alike f g op (field_ref h) vs = field_ref_to_sql-Alike f h g "" op
  value_to_sql-Alike f g op v vs = operator_to_sql-Alike f g op v nil vs

  -- What the loops collect: the clauses pairwise alike.
  abbrev AllAlike : List String → List String → Type 0
  AllAlike [] [] = Unit
  AllAlike [] (t ∷ ts) = ⊥
  AllAlike (s ∷ ss) [] = ⊥
  AllAlike (s ∷ ss) (t ∷ ts) = Alike s t × AllAlike ss ts

  join-AllAlike :
      (sep : String) (ss ts : List String)
      → Alike sep sep
      → AllAlike ss ts
      → Alike (join sep ss) (join sep ts)
  unfolding join outside ends_inside is_empty
  join-AllAlike sep [] [] k h = Alike-itself "" refl
  join-AllAlike sep [] (t ∷ ts) k h = absurd h
  join-AllAlike sep (s ∷ ss) [] k h = absurd h
  join-AllAlike sep (s ∷ []) (t ∷ []) k h = h.0
  join-AllAlike sep (s ∷ []) (t ∷ t' ∷ ts) k h = absurd h.1
  join-AllAlike sep (s ∷ s' ∷ ss) (t ∷ []) k h = absurd h.1
  join-AllAlike sep (s ∷ s' ∷ ss) (t ∷ t' ∷ ts) k h =
      Alike-append s t _ _ h.0
        (Alike-append sep sep _ _ k (join-AllAlike sep (s' ∷ ss) (t' ∷ ts) k h.1))

  add_clause-AllAlike :
      (c d : Clause G) (r r' : List String × List (Value G))
      → Alike c.0 d.0
      → AllAlike r.0 r'.0
      → AllAlike (add_clause go c r).0 (add_clause go d r').0
  unfolding add_clause outside ends_inside is_empty
  add_clause-AllAlike (s, args) (t, args') (ss, rest) (ts, rest') h k =
      elim (Bool-cases (is_empty s)) [
        | inl blank ↦ rw (blank, sym h.empty ∙ blank) k
        | inr filled ↦
            rw (filled, sym h.empty ∙ filled)
              (
                Alike-append "(" "(" _ _ (Alike-itself "(" refl)
                    (Alike-append s t ")" ")" h (Alike-itself ")" refl)),
                k,
              )
      ]

  separator-Alike :
      (logic : LogicType) → Alike (logic_separator go logic) (logic_separator go logic)
  unfolding logic_separator outside ends_inside
  separator-Alike logic_and = Alike-itself " AND " refl
  separator-Alike logic_or = Alike-itself " OR " refl

  logical_to_sql-Alike :
      (logic : LogicType) (r r' : List String × List (Value G))
      → AllAlike r.0 r'.0
      → Alike (logical_to_sql go logic r).0 (logical_to_sql go logic r').0
  unfolding logical_to_sql outside ends_inside is_empty
  logical_to_sql-Alike logic ([], args) ([], args') h = Alike-itself "" refl
  logical_to_sql-Alike logic ([], args) (t ∷ ts, args') h = absurd h
  logical_to_sql-Alike logic (s ∷ ss, args) ([], args') h = absurd h
  logical_to_sql-Alike logic (s ∷ ss, args) (t ∷ ts, args') h =
      join-AllAlike (logic_separator go logic) (s ∷ ss) (t ∷ ts) (separator-Alike logic) h

  not_to_sql-Alike :
      (c d : Clause G) → Alike c.0 d.0 → Alike (not_to_sql go c).0 (not_to_sql go d).0
  unfolding not_to_sql outside ends_inside is_empty
  not_to_sql-Alike (s, args) (t, args') h = elim (Bool-cases (is_empty s)) [
    | inl blank ↦ rw (blank, sym h.empty ∙ blank) (Alike-itself "" refl)
    | inr filled ↦
        rw (filled, sym h.empty ∙ filled)
          (Alike-append "NOT (" "NOT (" _ _ (Alike-itself "NOT (" refl)
            (Alike-append s t ")" ")" h (Alike-itself ")" refl)))
  ]

  mutual
    unfolding condition_to_sql conditions_to_sql erase erase_all erase_field field_condition_to_sql
        outside ends_inside is_empty

    condition_to_sql-Alike :
        (c : Condition G) → Alike (condition_to_sql go c).0 (condition_to_sql go (erase c)).0
    condition_to_sql-Alike (field_condition c) = value_to_sql-Alike c.field "" c.op c.value c.values
    condition_to_sql-Alike (logical_condition logic cs) =
        logical_to_sql-Alike logic (conditions_to_sql go cs) (conditions_to_sql go (erase_all cs))
          (conditions_to_sql-AllAlike cs)
    condition_to_sql-Alike (not_condition c) =
        not_to_sql-Alike (condition_to_sql go c) (condition_to_sql go (erase c))
          (condition_to_sql-Alike c)
    condition_to_sql-Alike absent = Alike-itself "" refl

    conditions_to_sql-AllAlike :
        (cs : Conditions G)
        → AllAlike (conditions_to_sql go cs).0 (conditions_to_sql go (erase_all cs)).0
    conditions_to_sql-AllAlike none_left = tt
    conditions_to_sql-AllAlike (and_then c cs) =
        add_clause-AllAlike (condition_to_sql go c) (condition_to_sql go (erase c))
          (conditions_to_sql go cs) (conditions_to_sql go (erase_all cs)) (condition_to_sql-Alike c)
          (conditions_to_sql-AllAlike cs)

  -- Two conditions of one shape, whatever their field names, referenced names, keys and values, give
  -- clauses that are the same outside single quotes, and no clause ends inside quotes.
  pub condition_to_sql-outside :
      (c d : Condition G)
      → erase c ≡ erase d
      → (outside false (condition_to_sql go c).0 ≡ outside false (condition_to_sql go d).0)
        × (ends_inside false (condition_to_sql go c).0 ≡ false)
  condition_to_sql-outside c d e =
      let left = condition_to_sql-Alike c in
      let right = condition_to_sql-Alike d in
      (left.same.text ∙ (rw e (sym right.same.text)), left.closed)
