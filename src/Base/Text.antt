-- ===== src/Base/Text.antt =====
-- Prefixes of texts: `strings.HasPrefix` and `strings.TrimPrefix` in one, `none` for no prefix.
use Prim.Native.Char.{code}
use Prim.Native.String
use Prim.Native.String.{String}
use mathlib.Core.Path.{◌≡◌, refl}
use mathlib.Core.Option.{Option, none, some}
use native.Mathlib.Omega.{arith}
use text.Mathlib.TextEquality.{Char-path}
use text.Mathlib.TextLemmas.{nil-append, cons-append}
use admin_api.Base.Tests.{◌==◌, if◌then◌else◌}

unfoldable pub cut_prefix : String → String → Option String
cut_prefix String.[] s = some s
cut_prefix (String.◌∷◌ c p) String.[] = none
cut_prefix (String.◌∷◌ c p) (String.◌∷◌ d s) = if code c == code d then cut_prefix p s else none

pub cut_prefix-append : (p s : String) → cut_prefix p (String.◌++◌ p s) ≡ some s
unfolding cut_prefix
cut_prefix-append String.[] s = rw nil-append refl
cut_prefix-append (String.◌∷◌ c p) s = rw cons-append (ground (arith, cut_prefix-append p s))

pub cut_prefix_sound : (p s t : String) → cut_prefix p s ≡ some t → s ≡ String.◌++◌ p t
unfolding cut_prefix
cut_prefix_sound String.[] s t h = rw nil-append (ground arith)
cut_prefix_sound (String.◌∷◌ c p) String.[] t h = cc
cut_prefix_sound (String.◌∷◌ c p) (String.◌∷◌ d s) t h =
    rw cons-append (ground (arith, Char-path c d, cut_prefix_sound p s t))
