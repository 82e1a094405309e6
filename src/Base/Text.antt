-- ===== src/Base/Text.antt =====
-- Texts that the program only compares and tests for being empty.
use Prim.Native.String.{String}
use mathlib.Core.Bool.{Bool, true, false}
use mathlib.Core.Option.{Option, none, some}

-- s == ""
abbrev pub is_blank : String → Bool
is_blank String.[] = true
is_blank (String.◌∷◌ c s) = false

-- p == nil
abbrev pub is_nil {ℓ} : {A : Type ℓ} → Option A → Bool
is_nil none = true
is_nil (some a) = false
