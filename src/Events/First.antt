-- ===== src/Events/First.antt =====
-- The first event of a call, as src/db.rs looks for tool intents and tool results.
use zincir.Prelude.{
  ℕ, ◌≤◌, ◌<◌, ◌≡◌, refl, Bool, true, false, none, some, List, [], ◌∷◌, ◌==◌, ◌&&◌, arith, All,
  String, Bool-cases, inl, inr,
}
use zincir.Types.{Uuid, Event, EventType}
use zincir.Sql.{select, limit_one, order_by, insert_by, max_of}
use zincir.Sql.Order.{first_all, something}
use zincir.Store.{max_seq, after_max}
use zincir.Events.{by_seq, first_call, has_call}

-- Every event of the run has a number below the next one.
none_empty :
    (le : Event → Event → Bool) (es : List Event) → limit_one (order_by le es) ≡ none → es ≡ []
unfolding order_by limit_one
none_empty le [] h = refl
none_empty le (e ∷ es) h = absurd (something le e (order_by le es) h)

and_left : (a b : Bool) → (a && b) ≡ true → a ≡ true
and_left a b h = ground arith

module _ (run_id : Uuid) where
  All-below :
      (es : List Event) (n m : ℕ)
      → n ≤ m
      → All (λ e. (e.run_id == run_id) ≡ true → e.seq < n) es
      → All (λ e. (e.run_id == run_id) ≡ true → e.seq < m) es
  All-below [] n m h a = tt
  All-below (e ∷ es) n m h a = ((λ k. omega (arith, a.0 k)), All-below es n m h a.1)

  max_seq_first :
      (e : Event) (es : List Event)
      → (e.run_id == run_id) ≡ true
      → e.seq < after_max (max_seq run_id (e ∷ es))
  unfolding max_seq select max_of
  max_seq_first e es h = ground arith

  max_seq_rest :
      (e : Event) (es : List Event)
      → after_max (max_seq run_id es) ≤ after_max (max_seq run_id (e ∷ es))
  unfolding max_seq select max_of
  max_seq_rest e es = ground arith

  max_seq-below :
      (es : List Event)
      → All (λ e. (e.run_id == run_id) ≡ true → e.seq < after_max (max_seq run_id es)) es
  max_seq-below [] = tt
  max_seq-below (e ∷ es) =
      (max_seq_first e es, All-below es _ _ (max_seq_rest e es) (max_seq-below es))

  call_below :
      (t : EventType) (call_id : String) (es : List Event) (m : ℕ)
      → All (λ x. (x.run_id == run_id) ≡ true → x.seq < m) es
      → All
          (λ x. (has_call run_id t call_id x ≡ true) × (x.seq < m))
          (select (has_call run_id t call_id) es)
  unfolding select
  call_below t call_id [] m a = tt
  call_below t call_id (x ∷ es) m a = elim (Bool-cases (has_call run_id t call_id x)) [
    | inl here ↦ rw here ((here, a.0 (and_left _ _ here)), call_below t call_id es m a.1)
    | inr there ↦ rw there (call_below t call_id es m a.1)
  ]

  -- The event of a call that is found is one of the run, of the type and of the call, below the next number.
  pub first_call-below :
      (t : EventType) (call_id : String) (es : List Event) (e : Event)
      → first_call run_id t call_id es ≡ some e
      → (has_call run_id t call_id e ≡ true) × (e.seq < after_max (max_seq run_id es))
  unfolding first_call
  first_call-below t call_id es e h =
      first_all by_seq
        (λ x. (has_call run_id t call_id x ≡ true) × (x.seq < after_max (max_seq run_id es)))
        (select (has_call run_id t call_id) es) e (call_below t call_id es _ (max_seq-below es)) h

  no_call :
      (t : EventType) (call_id : String) (es : List Event)
      → first_call run_id t call_id es ≡ none
      → select (has_call run_id t call_id) es ≡ []
  unfolding first_call
  no_call t call_id es h = none_empty by_seq _ h

  -- A new event of the call, where there was none, is the one found.
  pub first_call-new :
      (t : EventType) (call_id : String) (es : List Event) (e : Event)
      → first_call run_id t call_id es ≡ none
      → has_call run_id t call_id e ≡ true
      → first_call run_id t call_id (e ∷ es) ≡ some e
  unfolding first_call select order_by insert_by limit_one
  first_call-new t call_id es e h k = rw (k, no_call t call_id es h) refl

  -- An event that is none of the call does not change what is found.
  pub first_call-other :
      (t : EventType) (call_id : String) (es : List Event) (e : Event)
      → has_call run_id t call_id e ≡ false
      → first_call run_id t call_id (e ∷ es) ≡ first_call run_id t call_id es
  unfolding first_call select
  first_call-other t call_id es e k = rw k refl
