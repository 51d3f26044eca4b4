-- ===== src/Events/Decoded.antt =====
-- `get_events` of src/db.rs decodes each row: when the sequence numbers fit an `i32`.
use zincir.Prelude.{
  ◌≡◌, refl, true, false, ◌||◌, List, [], ◌∷◌, ◌==◌, ltb, arith, if◌then◌else◌, Bool-cases, inl,
  inr,
}
use zincir.Types.{Uuid, Event}
use zincir.Sql.{exists, insert_by, max_of, select}
use zincir.Store.{max_seq, after_max, i32_limit}
use zincir.Events.{events_of, by_seq, is_too_large}

pub events_here :
    (run_id : Uuid) (e : Event) (es : List Event)
    → events_of run_id (e ∷ es) ≡ (
        if e.run_id == run_id
        then insert_by by_seq e (events_of run_id es)
        else events_of run_id es)
unfolding events_of
events_here run_id e es = elim (Bool-cases (e.run_id == run_id)) [
  | inl same ↦ rw same
  | inr other ↦ rw other
]

insert-too_large :
    (e : Event) (es : List Event)
    → exists is_too_large (insert_by by_seq e es) ≡ (is_too_large e || exists is_too_large es)
unfolding exists insert_by
insert-too_large e [] = refl
insert-too_large e (x ∷ es) = ground (arith, insert-too_large e es)

-- All of them can be decoded.
pub events_of-Fits :
    (run_id : Uuid) (es : List Event)
    → exists is_too_large es ≡ false
    → exists is_too_large (events_of run_id es) ≡ false
unfolding exists
events_of-Fits run_id [] f = unfold events_of in refl
events_of-Fits run_id (e ∷ es) f = ground (
  arith,
  f,
  events_here run_id e es,
  insert-too_large e (events_of run_id es),
  events_of-Fits run_id es,
)

-- They can if there is room for one more.
pub below-Fits :
    (run_id : Uuid) (es : List Event)
    → ltb (after_max (max_seq run_id es)) i32_limit ≡ true
    → exists is_too_large (events_of run_id es) ≡ false
unfolding exists max_seq select max_of
below-Fits run_id [] f = unfold events_of in refl
below-Fits run_id (e ∷ es) f = ground (
  arith,
  f,
  events_here run_id e es,
  insert-too_large e (events_of run_id es),
  below-Fits run_id es,
)
