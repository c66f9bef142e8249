-- ===== src/Engine/GroupBy/Slots.antt =====
-- Every group key has its struct field.
use Prim.Native.String.{String}
use Prim.Native.Char.{code}
use text.Mathlib.Text.{◌==◌}
use text.Mathlib.TextEquality.{Char-path, eq_iff}
use text.Mathlib.TextLemmas.{cons-append, nil-append}
use den.Base.Text.{◌<>◌}
use den.Base.{
  ◌<◌, ltb, arith, Bool-cases, ◌≡◌, refl, ap, sym, subst, ◌∙◌, ◌⊎◌, inl, inr, ℕ, zero, suc, Bool,
  true, false, ◌&&◌, Option, none, some, List, [], ◌∷◌, Option-cases, if◌then◌else◌,
}
use den.Base.Int.{ℤ, pos, negsuc}
use den.Base.Results.{Result, ok, err, after-ok}
use den.Engine.QuerySet.Writes.{size}
use den.Engine.GroupBy.{
  GroupField, GroupError, strip_prefix, same_number, positional_or_none, in_range, mixed_tags,
  key_tag, key_slot, no_slots, slot_at, put_slot, claim_free, claim, claim_all, has_unindexed,
  has_positional, filled_from, resolve_group_key_slots,
}

-- The element at a position.
unfoldable pub nth : ℕ → List ℕ → Option ℕ
nth i [] = none
nth zero (x ∷ xs) = some x
nth (suc i) (x ∷ xs) = nth i xs

slot_at-put :
    (i j v u : ℕ) (slots : List (Option ℕ))
    → slot_at i (put_slot j v slots) ≡ some u
    → ((i ≡ j) × (v ≡ u)) ⊎ (slot_at i slots ≡ some u)
unfolding slot_at put_slot
slot_at-put i j v u [] e = inr e
slot_at-put zero zero v u (x ∷ xs) e = inl (refl, some_inj e)
  where
    some_inj : Path (Option ℕ) (some v) (some u) → v ≡ u
    some_inj e = cc
slot_at-put zero (suc j) v u (x ∷ xs) e = inr e
slot_at-put (suc i) zero v u (x ∷ xs) e = inr e
slot_at-put (suc i) (suc j) v u (x ∷ xs) e = elim (slot_at-put i j v u xs e) [
  | inl (same, is_v) ↦ inl (ap suc same, is_v)
  | inr h ↦ inr h
]

size-put : (j v : ℕ) (slots : List (Option ℕ)) → size (put_slot j v slots) ≡ size slots
unfolding size put_slot
size-put j v [] = refl
size-put zero v (x ∷ xs) = refl
size-put (suc j) v (x ∷ xs) = ap suc (size-put j v xs)

slot_at-none : (i n : ℕ) → slot_at i (no_slots n) ≡ none
unfolding slot_at no_slots
slot_at-none i zero = refl
slot_at-none zero (suc n) = refl
slot_at-none (suc i) (suc n) = slot_at-none i n

size-no_slots : (n : ℕ) → size (no_slots n) ≡ n
unfolding size no_slots
size-no_slots zero = refl
size-no_slots (suc n) = ap suc (size-no_slots n)

pub some_inj : {A : Type 0} {a b : A} → Path (Option A) (some a) (some b) → a ≡ b
some_inj e = cc

-- A text without its prefix is what follows it.
strip_prefix-append : (p s rest : String) → strip_prefix p s ≡ some rest → s ≡ p <> rest
unfolding strip_prefix
strip_prefix-append String.[] s rest = λ e. some_inj e ∙ sym (nil-append rest)
strip_prefix-append (String.◌∷◌ c p) String.[] rest = λ e. cc
strip_prefix-append (String.◌∷◌ c p) (String.◌∷◌ d s) rest =
    elim (Bool-cases (same_number (code c) (code d))) [
      | inl same ↦ rw same (λ e.
          let first : d ≡ c = Char-path d c (ground arith) in
          ap (λ x. String.◌∷◌ x s) first
          ∙ ap (λ x. String.◌∷◌ c x) (strip_prefix-append p s rest e)
          ∙ sym (cons-append c p rest))
      | inr other ↦ rw other (λ e. cc)
    ]

module _ (X : Type 0) (atoi : String → Option ℤ) (n : ℕ) where
  -- The tag names the key at the position: `group_key` names the one key there is, `group_key:N` the
  -- key at N, when there are more than N.
  abbrev pub Names : String → ℕ → Type 0
  Names tag i =
      ((tag ≡ "group_key") × (n ≡ 1) × (i ≡ 0))
      ⊎ ((slot : String) × (tag ≡ "group_key:" <> slot) × (atoi slot ≡ some (pos i)) × (i < n))

  -- Some field of the target has the index, and its tag names the key.
  abbrev pub Claims : List GroupField → ℕ → ℕ → Type 0
  Claims [] i v = ⊥
  Claims (m ∷ ms) i v = (Names m.tag i × (m.index ≡ v)) ⊎ Claims ms i v

  ok_inj : {A : Type 0} {a b : A} → Path (Result (GroupError X) A) (ok a) (ok b) → a ≡ b
  ok_inj e = cc

  in_range-below :
      (slot : String) (read : Option ℤ) (i : ℕ)
      → in_range {X = X} n slot read ≡ ok (some i)
      → (read ≡ some (pos i)) × (i < n)
  unfolding in_range
  in_range-below slot none i = λ e. cc
  in_range-below slot (some (negsuc k)) i = λ e. cc
  in_range-below slot (some (pos k)) i = elim (Bool-cases (ltb k n)) [
    | inl below ↦ rw below (λ e.
        let same : k ≡ i = some_inj (ok_inj e) in
        (ap (λ x. some (pos x)) same, subst (λ x. x < n) same (ground arith)))
    | inr beyond ↦ rw beyond (λ e. cc)
  ]

  key_slot-Names :
      (tag : String) (i : ℕ) → key_slot {X = X} atoi n (key_tag tag) ≡ ok (some i) → Names tag i
  unfolding key_slot key_tag positional_or_none
  key_slot-Names tag i = elim (Bool-cases (tag == "group_key")) [
    | inl plain ↦ rw plain (elim (Bool-cases (same_number n 1)) [
      | inl single ↦
          rw single
            (λ e. inl ((eq_iff tag "group_key").0 plain, ground arith, sym (some_inj (ok_inj e))))
      | inr several ↦ rw several (λ e. cc)
    ])
    | inr other ↦ rw other (elim (Option-cases (strip_prefix "group_key:" tag)) [
      | inl no_prefix ↦ rw no_prefix (λ e. cc)
      | inr (slot, stripped) ↦ rw stripped (λ e.
          let (read, below) = in_range-below slot (atoi slot) i e in
          inr (slot, strip_prefix-append "group_key:" tag slot stripped, read, below))
    ])
  ]

  claim-slots :
      (slot : Option ℕ) (v i u : ℕ) (slots out : List (Option ℕ))
      → Path (Result (GroupError X) (List (Option ℕ))) (claim slot v slots) (ok out)
      → (size out ≡ size slots)
        × (slot_at i out ≡ some u → ((slot ≡ some i) × (v ≡ u)) ⊎ (slot_at i slots ≡ some u))
  unfolding claim claim_free
  claim-slots none v i u slots out = λ e.
      subst
        (λ y.
          (size y ≡ size slots)
          × (slot_at i y ≡ some u
              → ((Path (Option ℕ) none (some i)) × (v ≡ u)) ⊎ (slot_at i slots ≡ some u)))
        (ok_inj e) (refl, λ h. inr h)
  claim-slots (some j) v i u slots out = elim (Option-cases (slot_at j slots)) [
    | inl free ↦ rw free (λ e.
        subst
          (λ y.
            (size y ≡ size slots)
            × (slot_at i y ≡ some u
                → ((Path (Option ℕ) (some j) (some i)) × (v ≡ u)) ⊎ (slot_at i slots ≡ some u)))
          (ok_inj e)
          (
            size-put j v slots,
            λ h. elim (slot_at-put i j v u slots h) [
              | inl (same, is_v) ↦ inl (ap (λ x. some x) (sym same), is_v)
              | inr k ↦ inr k
            ],
          ))
    | inr (x, taken) ↦ rw taken (λ e. cc)
  ]

  claim_all-slots :
      (ms : List GroupField) (i u : ℕ) (slots out : List (Option ℕ))
      → Path (Result (GroupError X) (List (Option ℕ))) (claim_all atoi n ms slots) (ok out)
      → (size out ≡ size slots)
        × (slot_at i out ≡ some u → Claims ms i u ⊎ (slot_at i slots ≡ some u))
  unfolding claim_all
  claim_all-slots [] i u slots out e =
      subst (λ y. (size y ≡ size slots) × (slot_at i y ≡ some u → ⊥ ⊎ (slot_at i slots ≡ some u)))
        (ok_inj e) (refl, λ h. inr h)
  claim_all-slots (m ∷ ms) i u slots out e =
      let (slot, keyed, e1) = after-ok (key_slot atoi n (key_tag m.tag)) _ out e in
      let (mid, claimed, e2) = after-ok (claim slot m.index slots) (claim_all atoi n ms) out e1 in
      let (size1, step) = claim-slots slot m.index i u slots mid claimed in
      let (size2, rest) = claim_all-slots ms i u mid out e2 in
      (
        size2 ∙ size1,
        λ h. elim (rest h) [
          | inl c ↦ inl (inr c)
          | inr k ↦ elim (step k) [
            | inl (is_slot, is_index) ↦
                inl (inl (key_slot-Names m.tag i (keyed ∙ ap (λ x. ok x) is_slot), is_index))
            | inr l ↦ inr l
          ]
        ],
      )

  filled_from-nth :
      (k : ℕ) (slots : List (Option ℕ)) (vs : List ℕ)
      → Path (Result (GroupError X) (List ℕ)) (filled_from k slots) (ok vs)
      → (size vs ≡ size slots) × ((i u : ℕ) → nth i vs ≡ some u → slot_at i slots ≡ some u)
  unfolding filled_from size nth slot_at
  filled_from-nth k [] vs e =
      subst (λ ys. (size ys ≡ 0) × ((i u : ℕ) → nth i ys ≡ some u → Path (Option ℕ) none (some u)))
        (ok_inj e) (refl, λ i u h. h)
  filled_from-nth k (none ∷ xs) vs e = cc
  filled_from-nth k (some v ∷ xs) vs e =
      let (ws, filled, e1) = after-ok (filled_from (suc k) xs) _ vs e in
      let (same_size, ih) = filled_from-nth (suc k) xs ws filled in
      subst
        (λ ys.
          (size ys ≡ suc (size xs))
          × ((i u : ℕ) → nth i ys ≡ some u → slot_at i (some v ∷ xs) ≡ some u))
        (ok_inj e1) (ap suc same_size, at v xs ws ih)
    where
      at :
          (v : ℕ) (xs : List (Option ℕ)) (ws : List ℕ)
          → ((i u : ℕ) → nth i ws ≡ some u → slot_at i xs ≡ some u)
          → (i u : ℕ) → nth i (v ∷ ws) ≡ some u
          → slot_at i (some v ∷ xs) ≡ some u
      at v xs ws ih zero u h = h
      at v xs ws ih (suc i) u h = ih i u h

  -- Group keys that resolve: there are as many struct fields as keys, and the tag of the one at a given
  -- place is group_key, where there is one key, or group_key: and a text that reads as the number of
  -- the place, which is below the number of keys.
  pub resolve_group_key_slots_lem :
      (mappings : List GroupField) (vs : List ℕ) (i v : ℕ)
      → Path (Result (GroupError X) (List ℕ)) (resolve_group_key_slots atoi mappings n) (ok vs)
      → nth i vs ≡ some v
      → (size vs ≡ n) × Claims mappings i v
  unfolding resolve_group_key_slots
  resolve_group_key_slots_lem mappings vs i v e h =
      let (slots, claimed, e1) = after-ok (claim_all atoi n mappings (no_slots n)) _ vs e in
      let filled : filled_from 0 slots ≡ ok vs =
        unmixed (has_unindexed mappings && has_positional mappings) slots e1 in
      let (same_size, places) = filled_from-nth 0 slots vs filled in
      (
        same_size ∙ (claim_all-slots mappings 0 0 (no_slots n) slots claimed).0 ∙ size-no_slots n,
        elim ((claim_all-slots mappings i v (no_slots n) slots claimed).1 (places i v h)) [
          | inl c ↦ c
          | inr k ↦ absurd (none_not_some (sym (slot_at-none i n) ∙ k))
        ],
      )
    where
      unmixed :
          (b : Bool) (slots : List (Option ℕ))
          → Path
              (Result (GroupError X) (List ℕ))
              (if b then err mixed_tags else filled_from 0 slots)
              (ok vs)
          → Path (Result (GroupError X) (List ℕ)) (filled_from 0 slots) (ok vs)
      unmixed true slots e = cc
      unmixed false slots e = e

      none_not_some : {v : ℕ} → Path (Option ℕ) none (some v) → ⊥
      none_not_some e = cc
