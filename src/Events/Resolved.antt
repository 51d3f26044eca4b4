-- ===== src/Events/Resolved.antt =====
-- The queries of src/db.rs for pending tool calls: `find_pending_tool_calls` and the EXISTS under NOT.
use zincir.Prelude.{
  ◌≡◌, refl, ap, ◌∙◌, Bool, true, false, some, List, [], ◌∷◌, ◌++◌, arith, All, String, Bool-cases,
  inl, inr, ltb, str_eq_iff, ◌&&◌, not,
}
use zincir.Json.{json_extract, SqlValue, sql_null, integer, sql_real, text, json, is_text, sql_eq}
use zincir.Types.{Uuid, Event, EventType, tool_call, tool_result}
use zincir.Sql.{select, exists, order_by, insert_by}
use zincir.Sql.Order.{first_all, select-passes}
use zincir.Events.{by_seq, first_call, has_call, resolves, is_resolved, is_pending, pending_of}

module _ (p q : Event → Bool) where
  within :
      (es xs : List Event)
      → (exists q xs ≡ true → exists q es ≡ true)
      → All (λ x. q x ≡ true → exists q es ≡ true) (select p xs)
  unfolding select exists
  within es [] k = tt
  within es (x ∷ xs) k = elim (Bool-cases (p x)) [
    | inl here ↦ rw here ((λ h. k (ground arith)), within es xs (λ h. k (ground arith)))
    | inr there ↦ rw there (within es xs (λ h. k (ground arith)))
  ]

pub added-exists :
    (q : Event → Bool) (new es : List Event) → exists q es ≡ true → exists q (new ++ es) ≡ true
unfolding exists
added-exists q [] es h = h
added-exists q (x ∷ new) es h = ground (arith, added-exists q new es h)

third : (a b c : Bool) → (a && (b && c)) ≡ true → c ≡ true
third a b c h = ground arith

left_of : (a b : Bool) → (a && b) ≡ true → a ≡ true
left_of a b h = ground arith

unpending : (a b c : Bool) → (a && (b && not c)) ≡ true → c ≡ true → ⊥
unpending a b c h k = ground arith

text_of : (v : SqlValue) (t : String) → is_text v t ≡ true → v ≡ text t
text_of (text s) t h = ap text ((str_eq_iff s t).0 h)
text_of sql_null t h = cc
text_of (integer n) t h = cc
text_of (sql_real n) t h = cc
text_of (json v) t h = cc

insert_by-All :
    (P : Event → Type 0) (x : Event) (es : List Event)
    → P x
    → All P es
    → All P (insert_by by_seq x es)
unfolding insert_by
insert_by-All P x [] h a = (h, tt)
insert_by-All P x (e ∷ es) h a = elim (Bool-cases (by_seq x e)) [
  | inl here ↦ rw here (h, a)
  | inr there ↦ rw there (a.0, insert_by-All P x es h a.1)
]

order_by-All : (P : Event → Type 0) (es : List Event) → All P es → All P (order_by by_seq es)
unfolding order_by
order_by-All P [] a = tt
order_by-All P (e ∷ es) a = insert_by-All P e (order_by by_seq es) a.0 (order_by-All P es a.1)

-- An intent of the call that is older than an event.
abbrev pub is_older : Uuid → String → Event → Event → Bool
is_older run_id call_id e x = has_call run_id tool_call call_id x && ltb x.seq e.seq

module _ (run_id : Uuid) (call_id : String) (es : List Event) (e : Event) where
  -- An event that is the result of a call, and is in the log.
  pub record IsResult : Type 0 where
    pub result : has_call run_id tool_result call_id e ≡ true
    pub stored : (q : Event → Bool) → q e ≡ true → exists q es ≡ true

  pub first_call-IsResult : first_call run_id tool_result call_id es ≡ some e → IsResult
  unfolding first_call
  first_call-IsResult h = record {
    result =
        first_all by_seq (λ x. has_call run_id tool_result call_id x ≡ true) _ e
          (select-passes (has_call run_id tool_result call_id) es) h;
    stored = λ q k.
        first_all by_seq (λ x. q x ≡ true → exists q es ≡ true) _ e
          (within (has_call run_id tool_result call_id) q es es (λ m. m)) h k;
  }

  has_call_text :
      (t : EventType) (x : Event)
      → has_call run_id t call_id x ≡ true
      → json_extract x.payload "call_id" ≡ text call_id
  has_call_text t x h = text_of _ _ (third _ _ _ h)

  same_text : (v w : SqlValue) → v ≡ text call_id → w ≡ text call_id → sql_eq v w ≡ true
  same_text v w p q =
      ap (λ u. sql_eq u w) p ∙ (ap (sql_eq (text call_id)) q ∙ (str_eq_iff call_id call_id).1 refl)

  module _ (r : IsResult) where
    same_call :
        (x : Event)
        → is_older run_id call_id e x ≡ true
        → sql_eq (json_extract e.payload "call_id") (json_extract x.payload "call_id") ≡ true
    same_call x h =
        same_text _ _ (has_call_text tool_result e r.result)
          (has_call_text tool_call x (left_of _ _ h))

    older-resolves : (x : Event) → is_older run_id call_id e x ≡ true → resolves x e ≡ true
    older-resolves x h = ground (arith, same_call x h, r.result, h)

    not_older : (x : Event) → is_pending run_id es x ≡ true → is_older run_id call_id e x ≡ false
    unfolding is_resolved
    not_older x h = elim (Bool-cases (is_older run_id call_id e x)) [
      | inl old ↦ absurd (unpending _ _ _ h (r.stored (resolves x) (older-resolves x old)))
      | inr new ↦ new
    ]

    select-not_older :
        (xs : List Event)
        → All (λ x. is_older run_id call_id e x ≡ false) (select (is_pending run_id es) xs)
    unfolding select
    select-not_older [] = tt
    select-not_older (x ∷ xs) = elim (Bool-cases (is_pending run_id es x)) [
      | inl here ↦ rw here (not_older x here, select-not_older xs)
      | inr there ↦ rw there (select-not_older xs)
    ]

    pub pending-not_older : All (λ x. is_older run_id call_id e x ≡ false) (pending_of run_id es)
    unfolding pending_of
    pending-not_older =
        order_by-All (λ x. is_older run_id call_id e x ≡ false) _ (select-not_older es)
