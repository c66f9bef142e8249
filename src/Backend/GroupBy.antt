-- ===== src/Backend/GroupBy.antt =====
-- The loops of `buildGroupBySQL`, which backend/sqlite/sql.go and backend/postgres/sql.go share but
-- for the expressions, given here as functions, and a count of one character in what they print.
use Prim.Native.String.{String}
use text.Mathlib.Text.{◌==◌}
use den.Base.{
  ℕ, ◌≡◌, refl, subst, List, [], ◌∷◌, ◌++◌, map, All, All-append, if◌then◌else◌, inl, inr,
  Bool-cases,
}
use den.Base.Results.{Result, ok, err, after}
use den.Base.Text.{◌<>◌, join, count_char, count_char-append}
use den.Backend.{SortDirection, SortEntry, AggregateOp, GroupByAgg, GroupBySortEntry}

module _ (expr : String → String) (dir_sql : SortDirection → String) where
  -- The term of a sort by one of the group's fields, the first that has the name; none otherwise.
  unfoldable pub key_term : List String → SortEntry → List String
  key_term [] s = []
  key_term (f ∷ fs) s =
      let rest = key_term fs s in if f == s.field then (expr f <> dir_sql s.dir) ∷ [] else rest

  unfoldable pub key_terms : List String → List SortEntry → List String
  key_terms fields [] = []
  key_terms fields (s ∷ ss) = key_term fields s ++ key_terms fields ss

module _ {E : Type 0} (agg_expr : AggregateOp → String → Result E String) where
  -- The aggregates of the SELECT; the first that is not supported ends the loop.
  unfoldable pub agg_exprs : List GroupByAgg → Result E (List String)
  agg_exprs [] = ok []
  agg_exprs (a ∷ as_) =
      after (agg_expr a.op a.field) (λ e. after (agg_exprs as_) (λ es. ok (e ∷ es)))

  unfoldable pub agg_terms :
      (SortDirection → String) → List GroupBySortEntry → Result E (List String)
  agg_terms dir_sql [] = ok []
  agg_terms dir_sql (s ∷ ss) =
      after (agg_expr s.op s.field)
        (λ e. after (agg_terms dir_sql ss) (λ es. ok ((e <> dir_sql s.dir) ∷ es)))

-- The character stands nowhere in the text.
abbrev pub Lacks : ℕ → String → Type 0
Lacks k s = count_char k s ≡ 0

pub Lacks-append : (k : ℕ) (s t : String) → Lacks k s → Lacks k t → Lacks k (s <> t)
Lacks-append k s t h h' = rw (count_char-append k s t, h, h')

pub join-Lacks :
    (k : ℕ) (sep : String) (ss : List String)
    → Lacks k sep
    → All (Lacks k) ss
    → Lacks k (join sep ss)
unfolding join count_char
join-Lacks k sep [] h a = refl
join-Lacks k sep (s ∷ []) h a = a.0
join-Lacks k sep (s ∷ t ∷ ss) h a =
    Lacks-append k s _ a.0 (Lacks-append k sep _ h (join-Lacks k sep (t ∷ ss) h a.1))

pub after_ok :
    {E A B : Type 0} (m : Result E A) (f : A → Result E B) {b : B}
    → after m f ≡ ok b
    → (a : A) × (m ≡ ok a) × (f a ≡ ok b)
after_ok (err e) f h = absurd (cc h)
after_ok (ok a) f h = (a, refl, h)

module _ (k : ℕ) (expr : String → String) (dir_sql : SortDirection → String)
    (expr_lacks : (f : String) → Lacks k (expr f))
    (dir_lacks : (d : SortDirection) → Lacks k (dir_sql d)) where
  pub exprs-Lacks : (fields : List String) → All (Lacks k) (map expr fields)
  exprs-Lacks [] = tt
  exprs-Lacks (f ∷ fs) = (expr_lacks f, exprs-Lacks fs)

  key_term-Lacks :
      (fields : List String) (s : SortEntry) → All (Lacks k) (key_term expr dir_sql fields s)
  unfolding key_term
  key_term-Lacks [] s = tt
  key_term-Lacks (f ∷ fs) s = elim (Bool-cases (f == s.field)) [
    | inl same ↦ rw same (Lacks-append k (expr f) _ (expr_lacks f) (dir_lacks s.dir), tt)
    | inr other ↦ rw other (key_term-Lacks fs s)
  ]

  pub key_terms-Lacks :
      (fields : List String) (ss : List SortEntry)
      → All (Lacks k) (key_terms expr dir_sql fields ss)
  unfolding key_terms
  key_terms-Lacks fields [] = tt
  key_terms-Lacks fields (s ∷ ss) =
      All-append (Lacks k) _ _ (key_term-Lacks fields s) (key_terms-Lacks fields ss)

module _ {E : Type 0} (k : ℕ) (agg_expr : AggregateOp → String → Result E String)
    (agg_lacks : (op : AggregateOp) (f e : String) → agg_expr op f ≡ ok e → Lacks k e) where
  pub agg_exprs-Lacks :
      (aggs : List GroupByAgg) (es : List String)
      → agg_exprs agg_expr aggs ≡ ok es
      → All (Lacks k) es
  unfolding agg_exprs
  agg_exprs-Lacks [] es h =
      let same : [] ≡ es = cc h in subst (λ (l : List String). All (Lacks k) l) same tt
  agg_exprs-Lacks (a ∷ aggs) es h =
      let (e, first, h') = after_ok (agg_expr a.op a.field) _ h in
      let (rest, later, h'') = after_ok (agg_exprs agg_expr aggs) _ h' in
      let same : e ∷ rest ≡ es = cc h'' in
      subst (λ (l : List String). All (Lacks k) l) same
        (agg_lacks a.op a.field e first, agg_exprs-Lacks aggs rest later)

  pub agg_terms-Lacks :
      (dir_sql : SortDirection → String)
      → ((d : SortDirection) → Lacks k (dir_sql d))
      → (sorts : List GroupBySortEntry) (es : List String)
      → agg_terms agg_expr dir_sql sorts ≡ ok es
      → All (Lacks k) es
  unfolding agg_terms
  agg_terms-Lacks dir_sql dir_lacks [] es h =
      let same : [] ≡ es = cc h in subst (λ (l : List String). All (Lacks k) l) same tt
  agg_terms-Lacks dir_sql dir_lacks (s ∷ sorts) es h =
      let (e, first, h') = after_ok (agg_expr s.op s.field) _ h in
      let (rest, later, h'') = after_ok (agg_terms agg_expr dir_sql sorts) _ h' in
      let same : (e <> dir_sql s.dir) ∷ rest ≡ es = cc h'' in
      subst (λ (l : List String). All (Lacks k) l) same
        (
          Lacks-append k e _ (agg_lacks s.op s.field e first) (dir_lacks s.dir),
          agg_terms-Lacks dir_sql dir_lacks sorts rest later,
        )
