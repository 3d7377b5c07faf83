-- ===== src/Base/Texts.antt =====
-- Texts: their equality is decided, so keys of a store may hold them.
use Prim.Native.String.{String}
use mathlib.Core.Bool.{Bool, true, false}
use mathlib.Core.Path.{◌≡◌, refl}
use text.Mathlib.Text.{◌==◌ as str_eq}
use text.Mathlib.TextEquality.{eq_iff}

unfoldable pub decide_text : (s t : String) (b : Bool) → str_eq s t ≡ b → Dec (s ≡ t)
decide_text s t true e = yes ((eq_iff s t).0 e)
decide_text s t false e = no (λ p. cc (e, (eq_iff s t).1 p))

unfoldable pub string_discrete : Discrete String
unfolding decide_text
string_discrete s t = decide_text s t (str_eq s t) refl
