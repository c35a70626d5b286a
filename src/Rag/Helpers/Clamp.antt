-- ===== src/Rag/Helpers/Clamp.antt =====
-- The bounds of `topK`.
use ragpolyglot_demo.Base.{◌≡◌, true, false, arith, refl}
use ragpolyglot_demo.Shared.Number.{Number, nan, infinite, finite, whole, is_nan, number_lt}
use ragpolyglot_demo.Rag.Helpers.{clamp_topk, clamp_chat_topk}

-- For every number but NaN the fast search asks for 5 to 10 chunks and the deep search for 10 to
-- 40, and clamping a second time changes nothing.
pub clamp_bounds :
    (topk : Number)
    → is_nan topk ≡ false
    → (number_lt (clamp_topk topk) (whole 5) ≡ false)
      × (number_lt (whole 10) (clamp_topk topk) ≡ false)
      × (number_lt (clamp_chat_topk topk) (whole 10) ≡ false)
      × (number_lt (whole 40) (clamp_chat_topk topk) ≡ false)
      × (clamp_topk (clamp_topk topk) ≡ clamp_topk topk)
      × (clamp_chat_topk (clamp_chat_topk topk) ≡ clamp_chat_topk topk)
unfolding clamp_topk clamp_chat_topk number_lt
clamp_bounds nan h = cc
clamp_bounds (infinite true) h = (refl, refl, refl, refl, refl, refl)
clamp_bounds (infinite false) h = (refl, refl, refl, refl, refl, refl)
clamp_bounds (finite m k) h =
    (ground arith, ground arith, ground arith, ground arith, ground arith, ground arith)
