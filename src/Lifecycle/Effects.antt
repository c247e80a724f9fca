-- ===== src/Lifecycle/Effects.antt =====
-- The effects that a data source must record for an adapter event.
use parly_relayer.Prelude.{◌≡◌, refl, List, [], ◌∷◌, ◌++◌, Option, ok, Result, arith, ◌>>=◌, Text}
use parly_relayer.Lifecycle.{LifecycleError}
use parly_relayer.Lifecycle.Versions.{
  Input, V3EventType, V4EventType, map_v3, map_v4, project_v3, project_v4,
}

-- The V4 event that carries on each V3 event. V4 splits the confirmation of the escrow receipt in two.
pub data SameStep : List V4EventType → V3EventType → Type 0 where
  quote : SameStep (V4EventType.quote_accepted ∷ []) V3EventType.quote_accepted
  receipt :
      SameStep
        (V4EventType.pool_withdrawal_confirmed ∷ V4EventType.escrow_receipt_confirmed ∷ [])
        V3EventType.escrow_receipt_confirmed
  submit : SameStep (V4EventType.payout_submitted ∷ []) V3EventType.payout_submitted
  complete : SameStep (V4EventType.payout_completed ∷ []) V3EventType.payout_completed
  escrow_refund :
      SameStep (V4EventType.escrow_refund_available ∷ []) V3EventType.escrow_refund_available
  refund : SameStep (V4EventType.refund_available ∷ []) V3EventType.refund_available
  claim : SameStep (V4EventType.refund_claimed ∷ []) V3EventType.refund_claimed

abbrev pub effects_v3 : V3EventType → Input → Result LifecycleError (List Text)
effects_v3 t input = do p ← project_v3 t Option.none input; ok p.required_effects

abbrev pub effects_v4 : List V4EventType → Input → Result LifecycleError (List Text)
effects_v4 [] input = ok []
effects_v4 (t ∷ ts) input = do
  p ← project_v4 t Option.none input
  rest ← effects_v4 ts input
  ok (p.required_effects ++ rest)

-- V4 keeps the public vocabulary of V3: for the same step of a payout, and whatever the input, both
-- adapters ask the data source for the same effects in the same order, or both refuse the event.
pub effects_v4-eq-effects_v3 :
    {ts : List V4EventType} {t : V3EventType}
    → SameStep ts t
    → (input : Input) → effects_v4 ts input ≡ effects_v3 t input
unfolding project_v3 project_v4 map_v3 map_v4
effects_v4-eq-effects_v3 quote input = refl
effects_v4-eq-effects_v3 receipt input = refl
effects_v4-eq-effects_v3 submit input = refl
effects_v4-eq-effects_v3 complete input = refl
effects_v4-eq-effects_v3 escrow_refund input = refl
effects_v4-eq-effects_v3 refund input = refl
effects_v4-eq-effects_v3 claim input = ground arith
