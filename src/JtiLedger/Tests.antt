-- ===== src/JtiLedger/Tests.antt =====
-- A ledger with uses, a replay and a pruning.
use licensing.Common.{◌≡◌, refl, true, false, List, [], ◌∷◌, arith}
use licensing.Table
use licensing.JtiLedger.{Call, record_use, prune, record_jti_use, prune_expired, answers}
use licensing.JtiLedger.Refinement.{spec_answers, spec_of, answers-spec_of, after, replay_refused}

abbrev calls : List Call
calls =
    record_use "a" 100
    ∷ record_use "b" 200
    ∷ record_use "a" 300
    ∷ prune 150
    ∷ record_use "a" 300
    ∷ record_use "b" 300
    ∷ []

answers-calls : answers calls [] ≡ true ∷ true ∷ false ∷ true ∷ false ∷ []
unfolding answers record_jti_use prune_expired Table.get Table.set
answers-calls = refl

answers-spec_of_example : answers calls [] ≡ spec_answers calls (spec_of [])
answers-spec_of_example = answers-spec_of calls [] tt

replay_refused_example :
    (record_jti_use "b" 400 (
      after
        (prune 150 ∷ record_use "a" 300 ∷ prune 199 ∷ [])
        (record_jti_use "b" 200 (("a", 100) ∷ [])).1)).0
    ≡ false
unfolding record_jti_use Table.get
replay_refused_example =
    replay_refused "b" 200 400 (prune 150 ∷ record_use "a" 300 ∷ prune 199 ∷ []) (("a", 100) ∷ [])
      (refl, tt) refl (omega arith, (omega arith, tt))
