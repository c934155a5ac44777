-- ===== src/Common/Members.antt =====
-- Texts that occur in a list of texts.
use text.Mathlib.TextEquality.{eq_iff}
use ndc.Common.Lists.{member, All}
use ndc.Common.Text.{str_eq}
use Prim.Native.String.{String}
use mathlib.Core.Path.{◌≡◌}
use mathlib.Core.Bool.{true}
use mathlib.Core.List.{List, [], ◌∷◌}
use native.Mathlib.Omega.{arith}

All-member_cons :
    (x : String) (us ts : List String)
    → All (λ t. member str_eq us t ≡ true) ts
    → All (λ t. member str_eq (x ∷ us) t ≡ true) ts
All-member_cons x us [] a = tt
All-member_cons x us (t ∷ ts) a = (ground arith, All-member_cons x us ts a.1)

pub All-member : (ts : List String) → All (λ t. member str_eq ts t ≡ true) ts
All-member [] = tt
All-member (t ∷ ts) = (ground (arith, eq_iff t t), All-member_cons t ts ts (All-member ts))
