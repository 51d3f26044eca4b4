-- ===== src/DurableAgent/Tool/Agreement.antt =====
-- The processes that run one tool call of examples/durable_agent.rs agree on its result.
use zincir.Prelude.{
  ℕ, String, subst, ◌≢◌, ◌≡◌, refl, sym, ◌∙◌, Option, none, some, ◌==◌, Bool-cases, inl, inr,
}
use mathlib.Core.Option.{some-injective}
use zincir.Json.{Value}
use zincir.Types.{ToolCall, tool, io, ok, err}
use zincir.DurableAgent.Tool.{
  Phase, opening, missing, staged, already_exists, published, returned, advance, System, set_phase,
  Step, act, io_error, restart, initial, Reach, here, next,
}

-- What a process's phase says of the file.
abbrev Agrees : Option Value → Phase → Type 0
Agrees file (published v) = file ≡ some v
Agrees file (returned (ok v)) = file ≡ some v
Agrees file (returned (err io)) = Unit {0}
Agrees file (returned (err e)) = ⊥
Agrees file already_exists = (v : Value) × (file ≡ some v)
Agrees file _ = Unit {0}

-- Once published, the result stays.
advance-keeps :
    (call : ToolCall) (file : Option Value) (ph : Phase) (v : Value)
    → file ≡ some v
    → (advance call file ph).0 ≡ some v
unfolding advance
advance-keeps call file opening v e = e
advance-keeps call file missing v e = e
advance-keeps call none (staged w) v e = cc
advance-keeps call (some u) (staged w) v e = e
advance-keeps call file already_exists v e = e
advance-keeps call file (published w) v e = e
advance-keeps call file (returned r) v e = e

advance-Agrees :
    (call : ToolCall) (file : Option Value) (ph : Phase)
    → Agrees file ph
    → Agrees (advance call file ph).0 (advance call file ph).1
unfolding advance
advance-Agrees call none opening a = tt
advance-Agrees call (some v) opening a = refl
advance-Agrees call file missing a = tt
advance-Agrees call none (staged w) a = refl
advance-Agrees call (some u) (staged w) a = (u, refl)
advance-Agrees call none already_exists (v, e) = cc
advance-Agrees call (some u) already_exists a = refl
advance-Agrees call file (published w) a = a
advance-Agrees call file (returned r) a = a

-- Another process's phase stays true of the file.
stays :
    (file file' : Option Value) (ph : Phase)
    → ((v : Value) → file ≡ some v → file' ≡ some v)
    → Agrees file ph
    → Agrees file' ph
stays file file' opening k a = tt
stays file file' missing k a = tt
stays file file' (staged w) k a = tt
stays file file' already_exists k (v, e) = (v, k v e)
stays file file' (published w) k a = k w a
stays file file' (returned (ok w)) k a = k w a
stays file file' (returned (err io)) k a = tt
stays file file' (returned (err e)) k a = a

record Inv (s : System) : Type 0 where
  agrees : (p : ℕ) → Agrees s.file (s.phase p)

set_phase-Agrees :
    (file file' : Option Value) (phases : ℕ → Phase) (p : ℕ) (x : Phase)
    → ((v : Value) → file ≡ some v → file' ≡ some v)
    → ((q : ℕ) → Agrees file (phases q))
    → Agrees file' x
    → (q : ℕ) → Agrees file' (set_phase phases p x q)
set_phase-Agrees file file' phases p x k a b q = elim (Bool-cases (q == p)) [
  | inl same ↦ rw same b
  | inr other ↦ rw other (stays file file' (phases q) k (a q))
]

module _ (calls : ℕ → ToolCall) where
  Step-Inv : {s t : System} → Step calls s t → Inv s → Inv t
  Step-Inv (act s p) i = record {
    agrees =
        set_phase-Agrees s.file _ s.phase p _ (λ v. advance-keeps (calls p) s.file (s.phase p) v)
          i.agrees (advance-Agrees (calls p) s.file (s.phase p) (i.agrees p));
  }
  Step-Inv (io_error s p) i = record {
    agrees = set_phase-Agrees s.file s.file s.phase p _ (λ v e. e) i.agrees tt;
  }
  Step-Inv (restart s p) i = record {
    agrees = set_phase-Agrees s.file s.file s.phase p _ (λ v e. e) i.agrees tt;
  }

  Step-keeps : {s t : System} → Step calls s t → (v : Value) → s.file ≡ some v → t.file ≡ some v
  Step-keeps (act s p) v e = advance-keeps (calls p) s.file (s.phase p) v e
  Step-keeps (io_error s p) v e = e
  Step-keeps (restart s p) v e = e

  Reach-Inv : {s t : System} → Inv s → Reach calls s t → Inv t
  Reach-Inv i here = i
  Reach-Inv i (next r st) = Step-Inv st (Reach-Inv i r)

  Reach-keeps : {s t : System} → Reach calls s t → (v : Value) → s.file ≡ some v → t.file ≡ some v
  Reach-keeps here v e = e
  Reach-keeps (next r st) v e = Step-keeps st v (Reach-keeps r v e)

initial-Inv : (file : Option Value) → Inv (initial file)
initial-Inv file = record { agrees = λ p. tt }

-- Whatever result the file held at first, if any, and however the processes of one call are interleaved,
-- fail and start again: when a process has returned a result, every process that has returned a result
-- at that point or later has returned the same, and the file holds it.
pub execute_write_file-agree :
    (calls : ℕ → ToolCall) (file : Option Value) (s t : System) (p q : ℕ) (v w : Value)
    → Reach calls (initial file) s
    → Reach calls s t
    → s.phase p ≡ returned (ok v)
    → t.phase q ≡ returned (ok w)
    → (v ≡ w) × (t.file ≡ some v)
execute_write_file-agree calls file s t p q v w r r' e e' =
    let i = Reach-Inv calls (initial-Inv file) r in
    let held = Reach-keeps calls r' v (subst (Agrees s.file) e (i.agrees p)) in
    let known = subst (Agrees t.file) e' ((Reach-Inv calls i r').agrees q) in
    (some-injective _ _ (sym held ∙ known), held)

-- No process finds the result gone that it could not publish because it was there.
pub result_never_disappears :
    (calls : ℕ → ToolCall) (file : Option Value) (s : System) (p : ℕ) (message : String)
    → Reach calls (initial file) s
    → s.phase p ≢ returned (err (tool message))
result_never_disappears calls file s p message r e =
    subst (Agrees s.file) e ((Reach-Inv calls (initial-Inv file) r).agrees p)
