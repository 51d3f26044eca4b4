-- ===== src/Ui/Markup.antt =====
-- The markup of a text: the characters of it that can open a tag or end an attribute.
use Prim.Native.String.{[], ◌∷◌, ◌++◌}
use Prim.Native.String.append
use zincir.Prelude.{◌≡◌, refl, false, String, Bool-cases, inl, inr, if◌then◌else◌, arith}
use zincir.Ui.{escape, is_markup, has_markup, has_markup-escape}

-- The markup characters of a text, in order.
unfoldable pub markup : String → String
markup [] = []
markup (c ∷ s) = let rest = markup s in if is_markup c then c ∷ rest else rest

pub markup-append : (s t : String) → markup (s ++ t) ≡ markup s ++ markup t
unfolding markup
markup-append [] t = rw (append.nil t, append.nil (markup t)) refl
markup-append (c ∷ s) t = elim (Bool-cases (is_markup c)) [
  | inl here ↦ rw (append.cons, here, append.cons, markup-append s t) refl
  | inr there ↦ rw (append.cons, there, markup-append s t) refl
]

markup-plain : (s : String) → has_markup s ≡ false → markup s ≡ ""
unfolding markup
markup-plain [] h = refl
markup-plain (c ∷ s) h = ground (arith, markup-plain s)

pub markup-escape : (s : String) → markup (escape s) ≡ ""
markup-escape s = markup-plain (escape s) (has_markup-escape s)
