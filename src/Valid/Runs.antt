-- ===== src/Valid/Runs.antt =====
-- `id TEXT PRIMARY KEY` of the table `agent_runs` in migrations/: no two runs have one id.
use zincir.Prelude.{◌≡◌, ap, ◌∙◌, Bool, false, List, [], ◌∷◌, ◌==◌, arith, nat_beq_iff, subst}
use zincir.Types.{Uuid}
use zincir.Sql.{exists, update, where_set}
use zincir.Sql.Laws.{Unique, exists-update}
use zincir.Tables.{RunRow}

abbrev pub Distinct : List RunRow → Type 0
Distinct [] = Unit {0}
Distinct (r ∷ rs) = (exists (λ x. x.id == r.id) rs ≡ false) × Distinct rs

-- So each id is a key of the table.
pub Distinct-Unique : (id : Uuid) (rs : List RunRow) → Distinct rs → Unique (λ r. r.id == id) rs
Distinct-Unique id [] d = tt
Distinct-Unique id (r ∷ rs) d = (
  λ same. subst (λ k. exists (λ x. x.id == k) rs ≡ false) ((nat_beq_iff r.id id).0 same) d.0,
  Distinct-Unique id rs d.1,
)

-- A change that keeps ids keeps them distinct.
pub Distinct-update :
    (p : RunRow → Bool) (f : RunRow → RunRow) (rs : List RunRow)
    → ((r : RunRow) → (f r).id ≡ r.id)
    → Distinct rs
    → Distinct (update p f rs)
unfolding update
Distinct-update p f [] h d = tt
Distinct-update p f (r ∷ rs) h d = (
  exists-update (λ x. x.id == (where_set p f r).id) p f rs (λ x. ground (arith, h x))
      ∙ ground (arith, h r, ap (λ k. exists (λ x. x.id == k) rs) (h r), d.0),
  Distinct-update p f rs h d.1,
)
