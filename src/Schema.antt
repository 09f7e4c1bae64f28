-- ===== src/Schema.antt =====
-- The enumerations and rows of the database, packages/db/prisma/schema.prisma, as far as the code
-- reads them. Ids, wallet addresses and transaction hashes are only compared, so they are numbers.
-- Amounts are `Decimal(38, 7)` columns, counted in stroops (units of 10^-7). Times are
-- milliseconds since the epoch.
use xgamefi.Prelude.{ℕ, ℤ, Option, List, Text, Bool}

abbrev pub Uuid : Type 0
Uuid = ℕ

abbrev pub TxHash : Type 0
TxHash = ℕ

abbrev pub Address : Type 0
Address = ℕ

pub data Currency : Type 0 where
  xlm usdt : Currency

pub data StudioStatus : Type 0 where
  pending active suspended : StudioStatus

pub data IntegrationMode : Type 0 where
  api_pull webhook_push : IntegrationMode

pub data PaymentStatus : Type 0 where
  pending paid failed refunded : PaymentStatus

pub data DeliveryStatus : Type 0 where
  pending delivered failed : DeliveryStatus

pub data ListingStatus : Type 0 where
  active locked sold cancelled : ListingStatus

pub data TradeStatus : Type 0 where
  escrow_pending paid item_transferred completed refunded failed : TradeStatus

pub data LedgerEntryType : Type 0 where
  sale_in payout_out p2p_escrow_in p2p_payout referral_reward refund : LedgerEntryType

pub data ReferralStatus : Type 0 where
  pending qualified rewarded expired : ReferralStatus

pub data PromotionType : Type 0 where
  percent fixed bundle first_purchase : PromotionType

pub data WebhookStatus : Type 0 where
  pending delivered failed exhausted : WebhookStatus

pub data WebhookEvent : Type 0 where
  purchase_completed purchase_pending purchase_failed p2p_trade_completed : WebhookEvent

-- `type Asset`: native lumens, or an issued asset by its code and issuer.
pub data Asset : Type 0 where
  native : Asset
  issued : Text → Address → Asset

pub record BundleConfig : Type 0 where
  pub item_id : Uuid
  pub quantity : ℕ
  pub bundle_price : ℤ

pub record Promotion : Type 0 where
  pub id : Uuid
  pub studio_id : Uuid
  pub code : Option Text
  pub kind : PromotionType
  pub value : ℤ
  pub currency : Option Currency
  pub applies_to_item_ids : List Uuid
  pub bundle_config : Option BundleConfig
  pub starts_at : Option ℕ
  pub ends_at : Option ℕ
  pub usage_limit : Option ℕ
  pub usage_count : ℤ
  pub is_active : Bool

pub record Studio : Type 0 where
  pub id : Uuid
  pub status : StudioStatus
  pub platform_fee_bps : ℕ
  pub payout_wallet_address : Option Address
  pub integration_mode : IntegrationMode
  pub api_base_url : Option Text
  pub webhook_url : Option Text
  pub webhook_secret_hash : Option Text
  pub referral_reward_amount : Option ℤ
  pub referral_reward_currency : Option Currency

pub record Item : Type 0 where
  pub id : Uuid
  pub studio_id : Uuid
  pub external_id : Text
  pub name : Text
  pub price_amount : ℤ
  pub price_currency : Currency
  pub stock : Option ℕ
  pub is_active : Bool
  pub is_listed : Bool
  pub synced_at : Option ℕ

-- A layout as `ShopLayoutSchema` parses it (packages/shared/src/zod/shop.ts): `none` stands for a
-- value that is null or does not parse.
pub record Section : Type 0 where
  pub title : Text
  pub item_ids : List Uuid

pub record Shop : Type 0 where
  pub studio_id : Uuid
  pub layout : Option (List Section)
  pub draft_layout : Option (List Section)

pub record Player : Type 0 where
  pub id : Uuid
  pub wallet_address : Address

pub record Order : Type 0 where
  pub id : Uuid
  pub studio_id : Uuid
  pub item_id : Uuid
  pub player_id : Uuid
  pub quantity : ℕ
  pub currency : Currency
  pub gross_amount : ℤ
  pub discount_amount : ℤ
  pub platform_fee_amount : ℤ
  pub net_to_studio_amount : ℤ
  pub promotion_id : Option Uuid
  pub referral_code_used : Option Text
  pub stellar_tx_hash : Option TxHash
  pub payment_status : PaymentStatus
  pub delivery_status : DeliveryStatus
  pub paid_at : Option ℕ
  pub delivered_at : Option ℕ

pub record Ownership : Type 0 where
  pub player_id : Uuid
  pub item_id : Uuid
  pub studio_id : Uuid
  pub quantity : ℤ
  pub locked_for_listing_id : Option Uuid

pub record Listing : Type 0 where
  pub id : Uuid
  pub studio_id : Uuid
  pub item_id : Uuid
  pub seller_player_id : Uuid
  pub price : ℤ
  pub currency : Currency
  pub status : ListingStatus
  pub locked_at : Option ℕ

pub record Trade : Type 0 where
  pub id : Uuid
  pub listing_id : Uuid
  pub buyer_player_id : Uuid
  pub seller_player_id : Uuid
  pub price : ℤ
  pub currency : Currency
  pub platform_fee_amount : ℤ
  pub net_to_seller_amount : ℤ
  pub escrow_tx_hash : Option TxHash
  pub payout_tx_hash : Option TxHash
  pub status : TradeStatus
  pub completed_at : Option ℕ

-- `none` for the source address is the empty string that an incoming payment is recorded with.
pub record LedgerEntry : Type 0 where
  pub kind : LedgerEntryType
  pub order_id : Option Uuid
  pub trade_id : Option Uuid
  pub referral_id : Option Uuid
  pub stellar_tx_hash : TxHash
  pub source_address : Option Address
  pub dest_address : Address
  pub amount : ℤ
  pub asset : Asset

pub record Referral : Type 0 where
  pub id : Uuid
  pub referrer_player_id : Uuid
  pub studio_id : Option Uuid
  pub referee_player_id : Option Uuid
  pub status : ReferralStatus
  pub qualifying_order_id : Option Uuid
  pub reward_amount : Option ℤ
  pub reward_currency : Option Currency
  pub reward_tx_hash : Option TxHash
  pub qualified_at : Option ℕ
  pub rewarded_at : Option ℕ

pub record Delivery : Type 0 where
  pub id : Uuid
  pub studio_id : Uuid
  pub event : WebhookEvent
  pub order_id : Option Uuid
  pub trade_id : Option Uuid
  pub url : Text
  pub attempt : ℕ
  pub max_attempts : ℕ
  pub status : WebhookStatus
  pub response_status : Option ℕ
  pub next_attempt_at : Option ℕ
  pub delivered_at : Option ℕ
