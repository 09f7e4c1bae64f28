-- ===== src/Jobs/Reward.antt =====
-- apps/worker/src/jobs/referral-reward/processor.ts: the referrer's reward.
use xgamefi.Prelude.{
  ℕ, ℤ, pos, negsuc, ⊤, Bool, true, false, not, ◌&&◌, Option, none, some, [], ◌∷◌, ◌++◌, codes,
  ◌==◌, find, update, count, take, if◌then◌else◌, or_else,
}
use xgamefi.Schema.{
  Uuid, TxHash, Currency, xlm, usdt, Asset, native, issued, Player, ReferralStatus, Referral, Order,
  Studio, LedgerEntry, referral_reward,
}
use xgamefi.World.{Db, Payment, External, ok, M, pure, ◌>>=◌, ◌>>◌, modify, write}
use xgamefi.Stellar.{asset_of, send_payment}
use xgamefi.Orders.{find_order, find_studio}
use xgamefi.Jobs.Refund.{find_player}

pub data RewardResult : Type 0 where
  rewarded : TxHash → RewardResult
  skipped : RewardResult

abbrev pub find_referral : Uuid → Db → Option Referral
find_referral i db = find (λ r. r.id == i) db.referrals

abbrev pub is_qualified : ReferralStatus → Bool
is_qualified ReferralStatus.qualified = true
is_qualified _ = false

abbrev pub find_maybe {ℓ} : {A : Type ℓ} → (Uuid → Option A) → Option Uuid → Option A
find_maybe f none = none
find_maybe f (some i) = f i

-- `studio.referralRewardAmount`, where there is a studio.
abbrev pub studio_reward : Option Studio → Option ℤ
studio_reward none = none
studio_reward (some s) = s.referral_reward_amount

abbrev pub studio_currency : Option Studio → Option Currency
studio_currency none = none
studio_currency (some s) = s.referral_reward_currency

abbrev pub order_currency : Option Order → Option Currency
order_currency none = none
order_currency (some o) = some o.currency

abbrev pub is_zero : Option ℤ → Bool
is_zero (some (pos n)) = n == 0
is_zero (some (negsuc n)) = false
is_zero none = false

-- The chain of `||` over the studio's, the platform's and the order's currency.
unfoldable pub reward_currency : External → Option Studio → Option Order → Currency
reward_currency x s o =
    or_else (studio_currency s)
      (or_else x.referral_reward_currency (or_else (order_currency o) xlm))

abbrev pub reward_payment : External → Referral → Currency → ℤ → Player → Payment
reward_payment x r currency amount referrer = record {
  destination = referrer.wallet_address;
  asset = asset_of x currency;
  amount = amount;
  memo = some (codes "ref:" ++ take 20 (x.uuid_text r.id));
}

-- The ledger names the currency, where the payment names the asset that stands for it.
abbrev pub booked_asset : External → Currency → Asset
booked_asset x xlm = native
booked_asset x usdt = issued (codes "USDT") x.usd_asset_issuer

abbrev pub reward_entry : External → Referral → Currency → ℤ → Player → TxHash → LedgerEntry
reward_entry x r currency amount referrer h = record {
  kind = referral_reward;
  order_id = none;
  trade_id = none;
  referral_id = some r.id;
  stellar_tx_hash = h;
  source_address = some x.receiving_account;
  dest_address = referrer.wallet_address;
  amount = amount;
  asset = booked_asset x currency;
}

abbrev pub update_referral : (Referral → Bool) → (Referral → Referral) → Db → Db
update_referral p f db = record db { referrals = update p f db.referrals }

-- The reward is disabled: the referral is closed with nothing paid.
abbrev pub close_referral : Referral → ℕ → Db → Db
close_referral r now =
    update_referral (λ s. s.id == r.id)
      (λ s. record s {
        status = ReferralStatus.rewarded;
        reward_amount = some (pos 0);
        rewarded_at = some now;
      })

abbrev pub mark_rewarded : Referral → Currency → ℤ → TxHash → ℕ → Db → Db
mark_rewarded r currency amount h now =
    update_referral (λ s. (s.id == r.id) && is_qualified s.status)
      (λ s. record s {
        status = ReferralStatus.rewarded;
        reward_amount = some amount;
        reward_currency = some currency;
        reward_tx_hash = some h;
        rewarded_at = some now;
      })

-- The transaction after the payment: an entry only if a referral was still qualified.
unfoldable pub book_reward : External → Referral → Currency → ℤ → Player → TxHash → M ⊤
book_reward x r currency amount referrer h w =
    let flipped = count (λ s. (s.id == r.id) && is_qualified s.status) w.db.referrals in
    let db' = mark_rewarded r currency amount h w.now w.db in
    (
      ok tt,
      record w {
        db = if flipped == 0 then db' else record db' {
          ledger = db'.ledger ++ reward_entry x r currency amount referrer h ∷ [];
        };
      },
    )

abbrev pub pay_reward : External → Referral → Player → Option Studio → Option Order → M RewardResult
pay_reward x r referrer s o = do
  let currency = reward_currency x s o
  let amount = or_else (studio_reward s) x.referral_reward_amount
  h ← send_payment x (reward_payment x r currency amount referrer)
  write x (book_reward x r currency amount referrer h)
  pure (rewarded h)

abbrev pub reward_referrer : External → Referral → Option Player → M RewardResult
reward_referrer x r none w = (ok skipped, w)
reward_referrer x r (some referrer) w =
    let o = find_maybe (λ i. find_order i w.db) r.qualifying_order_id in
    let s = find_maybe (λ i. find_studio i w.db) r.studio_id in
    (if is_zero (studio_reward s)
        then (modify (close_referral r w.now) >> pure skipped)
        else pay_reward x r referrer s o)
      w

abbrev pub reward_found : External → Option Referral → M RewardResult
reward_found x none w = (ok skipped, w)
reward_found x (some r) w =
    (if not (is_qualified r.status)
        then pure skipped
        else reward_referrer x r (find_player r.referrer_player_id w.db))
      w

unfoldable pub referral_reward_processor : External → Uuid → M RewardResult
referral_reward_processor x i w = reward_found x (find_referral i w.db) w
