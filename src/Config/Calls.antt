-- ===== src/Config/Calls.antt =====
-- Sequences of calls of the accessors that set.
use ext_quiche.Base.{◌≡◌, refl, ◌∙◌, false, List, [], ◌∷◌, ◌++◌, All, ◌==◌}
use ext_quiche.External.Std.{Std, StdLaws}
use ext_quiche.Config.{Config}
use ext_quiche.Config.Table.{Setting, index, ValueOf, get_setting, set_setting}
use ext_quiche.Config.Independence.{Fits, get-set, get-set_ne}

-- A call sets a setting to a value.
abbrev pub Call : Std → Type 0
Call e = (k : Setting) × ValueOf e k

-- No call sets this one.
abbrev pub Untouched : (e : Std) → Setting → List (Call e) → Type 0
Untouched e k calls = All (λ (call : Call e). (index k == index call.0) ≡ false) calls

module _ {e : Std} where
  unfoldable pub set_all : List (Call e) → Config e → Config e
  set_all [] c = c
  set_all ((k, v) ∷ calls) c = set_all calls (set_setting k v c)

  set_all-Untouched :
      (k : Setting) (calls : List (Call e)) (c : Config e)
      → Untouched e k calls
      → get_setting k (set_all calls c) ≡ get_setting k c
  unfolding set_all
  set_all-Untouched k [] c other = refl
  set_all-Untouched k ((j, v) ∷ calls) c other =
      set_all-Untouched k calls (set_setting j v c) other.1 ∙ get-set_ne k j v c other.0

module _ {e : Std} (laws : StdLaws e) where
  -- After any calls, each setting reads as the last of them set it, where what that call gave is
  -- one of the values which the accessor keeps whole: protocol names in UTF-8, timeouts of 64 bits,
  -- a token as the accessor writes it, anything for the other settings.
  pub set_all_last :
      (before after : List (Call e)) (k : Setting) (v : ValueOf e k) (c : Config e)
      → Fits e k v
      → Untouched e k after
      → get_setting k (set_all (before ++ (k, v) ∷ after) c) ≡ v
  unfolding set_all
  set_all_last [] after k v c fits other =
      set_all-Untouched k after (set_setting k v c) other ∙ get-set laws k v c fits
  set_all_last ((j, w) ∷ before) after k v c fits other =
      set_all_last before after k v (set_setting j w c) fits other
