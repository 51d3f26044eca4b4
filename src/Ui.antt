-- ===== src/Ui.antt =====
-- `escape` of src/ui.rs, through which the inspector puts every text of the database into its pages.
pub mod Handlers
pub mod Html
pub mod Serve
pub mod Structure
pub mod Markup
mod Style
use Prim.Native.Char.{Char, code}
use Prim.Native.String.{[], ◌∷◌, ◌++◌}
use Prim.Native.String.append
use zincir.Prelude.{◌≡◌, refl, Bool, true, false, ◌||◌, String, ◌==◌, if◌then◌else◌, arith}

-- What is written for a character: `&`, `<`, `>`, `"`, `'`, and any other.
unfoldable pub escaped : Char → String
escaped c =
    if code c == 38
    then "&amp;"
    else if code c == 60
    then "&lt;"
    else if code c == 62
    then "&gt;"
    else if code c == 34
    then "&quot;"
    else if code c == 39
    then "&#39;"
    else c ∷ []

unfoldable pub escape : String → String
unfolding escaped
escape [] = []
escape (c ∷ s) = escaped c ++ escape s

-- Is the character one that ends a text or an attribute of HTML?
abbrev pub is_markup : Char → Bool
is_markup c = code c == 60 || (code c == 62 || (code c == 34 || code c == 39))

-- Is some character of the text markup?
abbrev pub has_markup : String → Bool
has_markup [] = false
has_markup (c ∷ s) = is_markup c || has_markup s

has_markup-append :
    (s t : String) → has_markup s ≡ false → has_markup t ≡ false → has_markup (s ++ t) ≡ false
has_markup-append [] t i j = rw (append.nil t) j
has_markup-append (c ∷ s) t i j =
    rw (append.cons c s t) (ground (arith, i, has_markup-append s t, j))

either_plain :
    (b : Bool) (s t : String)
    → (b ≡ true → has_markup s ≡ false)
    → (b ≡ false → has_markup t ≡ false)
    → has_markup (if b then s else t) ≡ false
either_plain true s t h k = h refl
either_plain false s t h k = k refl

has_markup-escaped : (c : Char) → has_markup (escaped c) ≡ false
unfolding escaped
has_markup-escaped c =
    either_plain (code c == 38) _ _ (λ _. refl)
      λ e1.
        either_plain (code c == 60) _ _ (λ _. refl)
          λ e2.
            either_plain (code c == 62) _ _ (λ _. refl)
              λ e3.
                either_plain (code c == 34) _ _ (λ _. refl)
                  λ e4.
                    either_plain (code c == 39) _ _ (λ _. refl) λ e5. ground (arith, e2, e3, e4, e5)

-- What `escape` writes has none of `<`, `>`, `"` and `'`, so a text that comes from outside can
-- neither open a tag nor end an attribute.
pub has_markup-escape : (s : String) → has_markup (escape s) ≡ false
unfolding escape
has_markup-escape [] = refl
has_markup-escape (c ∷ s) =
    has_markup-append (escaped c) (escape s) (has_markup-escaped c) (has_markup-escape s)
