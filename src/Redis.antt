-- ===== src/Redis.antt =====
-- What a removal does to the copy of a session in Redis, of `CallStore::remove` in
-- src/sip/store.rs.
use Prim.Native.String.{◌++◌}
use sentiric_b2bua_service.Prelude.{String, ◌≡◌, ◌∙◌, true, false, List, [], ◌∷◌, ◌⊎◌, inl, inr}
use sentiric_b2bua_service.Effects.{Op, Answer, Event, redis_clone, redis_del}
use sentiric_b2bua_service.Effects.Retry.{Newest}

-- Redis was found to be out of reach, or it was told to delete the entry of a key.
pub data Removal : Type 0 where
  out_of_reach : Removal
  deleted : (key : String) → Removal

removal_of : (o : Op) → Answer o → List Removal → List Removal
removal_of redis_clone false rs = out_of_reach ∷ rs
removal_of redis_clone true rs = rs
removal_of (redis_del k) a rs = deleted k ∷ rs
removal_of _ a rs = rs

-- The newest first.
unfoldable pub removals : List Event → List Removal
unfolding removal_of
removals [] = []
removals (e ∷ es) = removal_of e.op e.answer (removals es)

-- The last removal was that of the call's entry, but where Redis is out of reach.
abbrev pub IsGone : (id : String) → List Event → Type 0
IsGone id es =
    Newest (deleted ("b2bua:call:" ++ id)) (removals es) ⊎ Newest out_of_reach (removals es)

Newest-removals :
    {x : Removal} (es ds : List Event)
    → removals es ≡ removals ds
    → Newest x (removals ds)
    → Newest x (removals es)
Newest-removals es ds e n = record { earlier = n.earlier; newest = e ∙ n.newest }

pub IsGone-same :
    (id : String) (es ds : List Event) → removals es ≡ removals ds → IsGone id ds → IsGone id es
IsGone-same id es ds e (inl n) = inl (Newest-removals es ds e n)
IsGone-same id es ds e (inr n) = inr (Newest-removals es ds e n)
