-- ===== src/Workflow/Names.antt =====
-- The names that `validate_name` of src/workflow.rs accepts.
use Prim.Native.Char.{code}
use Prim.Native.String.{len, [], ◌∷◌}
use Prim.Native.String.len
use text.Mathlib.TextPositions.{len_utf8-pos}
use zincir.Prelude.{◌≤◌, ◌≡◌, ◌↔◌, ◌==◌, Bool, true, false, String, arith}
use zincir.Types.{ok}
use zincir.Steps.{fits_check, sql_length}
use zincir.Workflow.{validate_name}

-- The text begins with U+0000.
abbrev pub begins_with_nul : String → Bool
begins_with_nul [] = false
begins_with_nul (c ∷ s) = code c == 0

-- A text has no more characters than bytes.
counted : (s : String) → sql_length s ≤ len s
unfolding sql_length
counted [] = rw (len.nil) omega arith
counted (c ∷ s) = rw (len.cons c s) (let (k, w) = len_utf8-pos c in ground (arith, w, counted s))

-- It counts as empty if it has no byte or begins with U+0000.
counted_none : (s : String) → 1 ≤ len s → (1 ≤ sql_length s) ↔ (begins_with_nul s ≡ false)
unfolding sql_length
counted_none [] h = absurd (omega (arith, h, len.nil))
counted_none (c ∷ s) h = (λ q. ground (arith, q), λ q. ground (arith, q))

-- A name that `validate_name`, which counts bytes, accepts is one that the schema's CHECK on the names
-- of steps and timers accepts, where `length` counts the characters before the first U+0000, exactly
-- if it does not begin with U+0000.
pub validate_name-fits_check :
    (name : String)
    → validate_name name ≡ ok tt
    → (fits_check name ≡ true) ↔ (begins_with_nul name ≡ false)
unfolding validate_name fits_check
validate_name-fits_check name h =
    let bytes : 1 ≤ len name = ground (arith, h) in
    let (f, g) = counted_none name bytes in
    (λ q. f (ground (arith, q)), λ q. ground (arith, g q, counted name, h))
