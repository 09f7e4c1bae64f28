-- ===== src/Jobs/Tests.antt =====
-- The jobs at the sample world.
use xgamefi.Prelude.{◌≡◌, refl, none, some, find, count}
use xgamefi.World.{ok}
use xgamefi.Stellar.{send_payment}
use xgamefi.Jobs.Payout.{payout_processor}
use xgamefi.Jobs.Refund.{refund_processor}
use xgamefi.Jobs.Reward.{rewarded, skipped, referral_reward_processor, book_reward}
use xgamefi.Jobs.Payments.{PaysOut, payout_processor-PaysOut}
use xgamefi.Jobs.Once.{referral_reward_processor_once}
use xgamefi.Samples.{world_with, world_qualified, paid_order, external}

payout_processor-PaysOut_example :
    PaysOut external 21
      (world_with paid_order)
      (payout_processor external 21 (world_with paid_order))
payout_processor-PaysOut_example = payout_processor-PaysOut external 21 (world_with paid_order)

paid_out : (payout_processor external 21 (world_with paid_order)).0 ≡ ok 333
unfolding payout_processor send_payment find
paid_out = refl

paid_out_again :
    (payout_processor external 21 (payout_processor external 21 (world_with paid_order)).1).0
    ≡ ok 333
unfolding payout_processor send_payment find
paid_out_again = refl

refund_run : (refund_processor external (some 21) none (world_with paid_order)).0 ≡ ok tt
unfolding refund_processor send_payment find
refund_run = refl

reward_run : (referral_reward_processor external 51 world_qualified).0 ≡ ok (rewarded 333)
unfolding referral_reward_processor book_reward send_payment find count
reward_run = refl

referral_reward_processor_once_example :
    referral_reward_processor external 51 (referral_reward_processor external 51 world_qualified).1
    ≡ (ok skipped, (referral_reward_processor external 51 world_qualified).1)
referral_reward_processor_once_example =
    referral_reward_processor_once external 51 world_qualified 333 reward_run
