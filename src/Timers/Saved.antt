-- ===== src/Timers/Saved.antt =====
-- The wake time that `schedule_timer` of src/db.rs saves.
use zincir.Prelude.{
  ℕ, ◌≡◌, refl, sym, ◌∙◌, ◌∷◌, subst, Option, none, some, arith, Bool-cases, inl, inr, String,
  nat_beq_iff, str_eq_iff,
}
use zincir.Types.{
  Uuid, ok, err, Error, Result, invalid_state, not_found, wake_too_large, db_error, check_violation,
}
use zincir.Sql.{first}
use zincir.Tables.{RunRow, TimerRow, Db, Clock, find_run}
use zincir.Tables.Yields.{Post}
use zincir.Store.{current_status}
use zincir.Steps.{fits_check}
use zincir.Lease.Durations.{Duration, duration_to_millis, checked_add}
use zincir.Timers.{find_timer, new_timer, insert_timer, schedule_timer}

-- The database knows the run, and the timer with this wake time.
pub record IsSaved (run_id : Uuid) (name : String) (wake_at_ms : ℕ) (db : Db) : Type 0 where
  pub run : RunRow
  pub known : find_run run_id db ≡ some run
  pub timer : TimerRow
  pub saved : find_timer run_id name db ≡ some timer
  pub wake : timer.wake_at_ms ≡ wake_at_ms

module _ (run_id : Uuid) (name : String) (delay : Duration) (now : Clock) (db : Db) where
  new_timer-first :
      (w : ℕ)
      → find_timer run_id name (record db { timers = new_timer run_id name w ∷ db.timers })
        ≡ some (new_timer run_id name w)
  unfolding find_timer first
  new_timer-first w = rw ((nat_beq_iff run_id run_id).1 refl, (str_eq_iff name name).1 refl) refl

  -- A saved timer answers its wake time to any schedule that fits.
  pub schedule_saved :
      (w t u : ℕ)
      → IsSaved run_id name w db
      → duration_to_millis delay ≡ ok t
      → checked_add now.utc_millis t ≡ some u
      → schedule_timer run_id name delay now db ≡ (ok w, db)
  unfolding schedule_timer current_status
  schedule_saved w t u s q q' = ground (arith, q, q', s.known, s.saved, s.wake)

  module _ (w : ℕ) (after : Db) (h : schedule_timer run_id name delay now db ≡ (ok w, after)) where
    failed :
        {x : Error}
        → (schedule_timer run_id name delay now db).0 ≡ err x
        → IsSaved run_id name w after
    failed f = absurd cc

    answered :
        (v : ℕ) (left : Db)
        → schedule_timer run_id name delay now db ≡ (ok v, left)
        → IsSaved run_id name v left
        → IsSaved run_id name w after
    answered v left k s = subst (Post (IsSaved run_id name)) (sym k ∙ h) s

    with_timer :
        (t u : ℕ) (r : RunRow) (o : Option TimerRow)
        → duration_to_millis delay ≡ ok t
        → checked_add now.utc_millis t ≡ some u
        → find_run run_id db ≡ some r
        → find_timer run_id name db ≡ o
        → IsSaved run_id name w after
    unfolding schedule_timer current_status insert_timer
    with_timer t u r (some x) q q' k e =
        answered x.wake_at_ms db (ground (arith, q, q', k, e))
          (record { run = r; known = k; timer = x; saved = e; wake = refl })
    with_timer t u r none q q' k e = elim (Bool-cases (fits_check name)) [
      | inl fits ↦
          answered u (record db { timers = new_timer run_id name u ∷ db.timers })
            (ground (arith, q, q', k, e, fits))
            (record {
              run = r;
              known = unfold find_run in k;
              timer = new_timer run_id name u;
              saved = new_timer-first u;
              wake = refl;
            })
      | inr bad ↦ failed {x = db_error check_violation} (ground (arith, q, q', k, e, bad))
    ]

    with_run :
        (t u : ℕ) (o : Option RunRow)
        → duration_to_millis delay ≡ ok t
        → checked_add now.utc_millis t ≡ some u
        → find_run run_id db ≡ o
        → IsSaved run_id name w after
    unfolding schedule_timer current_status
    with_run t u none q q' k = failed {x = not_found run_id} (ground (arith, q, q', k))
    with_run t u (some r) q q' k = with_timer t u r (find_timer run_id name db) q q' k refl

    with_wake :
        (t : ℕ) (o : Option ℕ)
        → duration_to_millis delay ≡ ok t
        → checked_add now.utc_millis t ≡ o
        → IsSaved run_id name w after
    unfolding schedule_timer
    with_wake t none q q' = failed {x = invalid_state wake_too_large} (ground (arith, q, q'))
    with_wake t (some u) q q' = with_run t u (find_run run_id db) q q' refl

    with_delay : (o : Result ℕ) → duration_to_millis delay ≡ o → IsSaved run_id name w after
    unfolding schedule_timer
    with_delay (err x) q = failed {x = x} (ground (arith, q))
    with_delay (ok t) q = with_wake t (checked_add now.utc_millis t) q refl

    pub schedule_timer-IsSaved : IsSaved run_id name w after
    schedule_timer-IsSaved = with_delay (duration_to_millis delay) refl
